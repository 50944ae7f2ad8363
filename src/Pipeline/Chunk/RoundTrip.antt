-- ===== src/Pipeline/Chunk/RoundTrip.antt =====
-- internal/pipeline/chunk.go: the whole loop on both sides.
use mathlib.Core.List.{append_assoc}
use jsync.Base.{
  ℕ, zero, suc, ◌+◌, ◌%◌, ◌^◌, ◌<◌, ◌≡◌, refl, ◌∙◌, inl, inr, Bool, true, false, Option, none, some,
  List, [], ◌∷◌, ◌++◌, Bytes, nat_eq, ◌==◌, arith, length, take, drop, if◌then◌else◌, Bool-cases,
  take-append-drop, length-drop, leb,
}
use jsync.Crypto.Primitives.{Primitives}
use jsync.Crypto.Primitives as Prims
use jsync.Pipeline.Chunk.Encoding.{Codec, IsLawful}
use jsync.Pipeline.Chunk.{
  Header, Msg, Encryption, Reader, read_full, sent_all, seal_chunk, chunk_headers, publish_loop,
  publish_archive, go_on, finished, Receiver, start, DeriveChain, receive_chunk, receive_batch,
  receive_loop, default_chunk_size, establish_chain, chain_from_bootstrap_headers,
}
use jsync.Pipeline.Chunk.Transfer.{
  deliver, AgreesOpt, delivery, receive_chunk-seal_chunk, get-bootstrap, sealed_headers,
}

-- No publish fails.
abbrev pub accepts : ℕ → Bool
accepts seq = false

abbrev pub reader : Bytes → Reader
reader bytes = record { rest = bytes; breaks = false }

module _ (P : Primitives) (C : Codec) (size total fuel seq : ℕ) (enc enc' : Option Encryption)
    (bytes wire : Bytes) (h : Header) where
  publish_loop-more :
      leb size (length bytes) ≡ true
      → seal_chunk P C enc seq (take size bytes) ≡ (enc', inr (wire, h))
      → let rest =
          publish_loop P C accepts size total fuel (reader (drop size bytes)) enc' (seq + 1) in
        publish_loop P C accepts size total (suc fuel) (reader bytes) enc seq
        ≡ ((record { header = chunk_headers C h seq false total; payload = wire }) ∷ rest.0, rest.1)
  unfolding publish_loop read_full
  publish_loop-more more sealed = ground arith

  publish_loop-last :
      leb size (length bytes) ≡ false
      → seal_chunk P C enc seq bytes ≡ (enc', inr (wire, h))
      → publish_loop P C accepts size total (suc fuel) (reader bytes) enc seq
        ≡ ((record { header = chunk_headers C h seq true total; payload = wire }) ∷ [], sent_all)
  unfolding publish_loop read_full
  publish_loop-last less sealed = ground arith

module _ (P : Primitives) (L : Prims.IsLawful P) (C : Codec) (W : IsLawful C)
    (derive : Option DeriveChain) (ad : Bytes) (observed : Bool) where
  receive_loop-more :
      (h : Header) (wire : Bytes) (more : List Msg) (r r' : Receiver)
      → receive_chunk P C derive ad observed r (delivery P L C W derive ad observed h wire)
        ≡ (r', go_on)
      → receive_loop P C derive ad observed
          (deliver (record { header = h; payload = wire } ∷ more))
          r
        ≡ receive_loop P C derive ad observed (deliver more) r'
  unfolding receive_loop receive_batch deliver
  receive_loop-more h wire more r r' e = ground arith

  receive_loop-last :
      (h : Header) (wire : Bytes) (r r' : Receiver)
      → receive_chunk P C derive ad observed r (delivery P L C W derive ad observed h wire)
        ≡ (r', finished)
      → receive_loop P C derive ad observed (deliver (record { header = h; payload = wire } ∷ [])) r
        ≡ (r', finished)
  unfolding receive_loop receive_batch deliver
  receive_loop-last h wire r r' e = ground arith

  receive_loop-publish_loop :
      (size total fuel seq : ℕ) (enc : Option Encryption) (bytes : Bytes) (r : Receiver)
      → 0 < size
      → length bytes < fuel
      → seq + fuel < 2 ^ 32
      → AgreesOpt P C derive ad seq enc r
      → r.want_seq ≡ seq
      → let (msgs, end) = publish_loop P C accepts size total fuel (reader bytes) enc seq in
        (r' : Receiver) × (end ≡ sent_all)
        × (receive_loop P C derive ad observed (deliver msgs) r ≡ (r', finished))
        × (r'.written ≡ r.written ++ bytes)
  receive_loop-publish_loop size total zero seq enc bytes r pos enough small a w =
      absurd (omega arith)
  receive_loop-publish_loop size total (suc fuel) seq enc bytes r pos enough small a w =
      elim (Bool-cases (leb size (length bytes))) [
        | inl more ↦
            let (enc', wire, h, r1, sealed, got, out, at, a') =
              receive_chunk-seal_chunk P L C W derive ad observed total enc seq (take size bytes)
                false r a w (omega arith) in
            let (r', all_sent, all_got, written) =
              receive_loop-publish_loop size total fuel (seq + 1) enc' (drop size bytes) r1 pos
                (ground (arith, length-drop size bytes)) (omega arith) a' at in
            rw (publish_loop-more P C size total fuel seq enc enc' bytes wire h more sealed) (
              r',
              all_sent,
              receive_loop-more _ wire _ r r1 got ∙ all_got,
              written ∙ rw (out, append_assoc, take-append-drop),
            )
        | inr less ↦
            let (enc', wire, h, r1, sealed, got, out, at, a') =
              receive_chunk-seal_chunk P L C W derive ad observed total enc seq bytes true r a w
                (omega arith) in
            rw (publish_loop-last P C size total fuel seq enc enc' bytes wire h less sealed)
              (r1, refl, receive_loop-last _ wire r r1 got, out)
      ]

-- An encrypted transfer can be opened: the receiver has a way to derive chains, which gives the
-- sender's fresh chain for the keys and the prekey id that the bootstrap headers carry.
pub record CanDerive (P : Primitives) (derive : DeriveChain) (ad : Bytes) (enc : Encryption)
    : Type 0 where
  pub same_ad : enc.associated_data ≡ ad
  pub fresh : enc.chain.n ≡ 0
  pub dh_key : P.new_public_key enc.bootstrap.initiator_dh_pub ≡ some enc.bootstrap.initiator_dh_pub
  pub ephemeral_key :
      P.new_public_key enc.bootstrap.ephemeral_pub ≡ some enc.bootstrap.ephemeral_pub
  pub small_id : enc.bootstrap.used_otp_id < 2 ^ 32
  pub derives :
      derive enc.bootstrap.initiator_dh_pub enc.bootstrap.ephemeral_pub enc.bootstrap.used_otp_id
      ≡ some enc.chain

module _ (P : Primitives) (L : Prims.IsLawful P) (C : Codec) (W : IsLawful C) where
  establish_chain-CanDerive :
      (derive : DeriveChain) (ad : Bytes) (enc : Encryption) (fin : Bool) (total : ℕ)
      → CanDerive P derive ad enc
      → establish_chain P C
          (some derive)
          (chunk_headers C (sealed_headers C (some enc) 0) 0 fin total)
          0
          none
        ≡ inr enc.chain
  unfolding establish_chain chain_from_bootstrap_headers
  establish_chain-CanDerive derive ad enc fin total d =
      let (hd, he, ho) = get-bootstrap C enc fin total in
      let small : enc.bootstrap.used_otp_id % 2 ^ 32 ≡ enc.bootstrap.used_otp_id =
        omega (arith, d.small_id) in
      rw (
        hd,
        W.decode-encode,
        d.dh_key,
        he,
        W.decode-encode,
        d.ephemeral_key,
        ho,
        W.parse_uint-format_uint _ d.small_id,
        small,
        d.derives,
      )

  abbrev pub CanOpen : Option DeriveChain → Bytes → Option Encryption → Type 0
  CanOpen derive ad none = Unit
  CanOpen none ad (some enc) = ⊥
  CanOpen (some derive) ad (some enc) = CanDerive P derive ad enc

  start-Agrees :
      (derive : Option DeriveChain) (ad : Bytes) (enc : Option Encryption)
      → CanOpen derive ad enc
      → AgreesOpt P C derive ad 0 enc start
  start-Agrees derive ad none d = tt
  start-Agrees none ad (some enc) d = absurd d
  start-Agrees (some derive) ad (some enc) d = record {
    same_ad = d.same_ad;
    at_seq = d.fresh;
    at_start = λ fin total z. establish_chain-CanDerive derive ad enc fin total d;
    later = λ z. absurd (z refl);
  }

  -- Any bytes of fewer than 2^32 - 1, in chunks of any size (zero is the default size), plain or
  -- encrypted for a receiver that can open the bootstrap: the sender publishes its last chunk
  -- within the given rounds, the receiver finishes, and what it has written is the bytes.
  pub receive_loop-publish_archive :
      (derive : Option DeriveChain) (ad : Bytes) (observed : Bool) (chunk_size total : ℕ)
      (enc : Option Encryption) (bytes : Bytes)
      → length bytes + 1 < 2 ^ 32
      → CanOpen derive ad enc
      → let (msgs, end) = publish_archive P C accepts (reader bytes) chunk_size enc total in
        (r : Receiver) × (end ≡ sent_all)
        × (receive_loop P C derive ad observed (deliver msgs) start ≡ (r, finished))
        × (r.written ≡ bytes)
  unfolding publish_archive
  receive_loop-publish_archive derive ad observed chunk_size total enc bytes small d =
      receive_loop-publish_loop P L C W derive ad observed
        (if chunk_size == 0 then default_chunk_size else chunk_size) total (length bytes + 1) 0 enc
        bytes start (ground arith) (omega arith) (omega arith) (start-Agrees derive ad enc d) refl
