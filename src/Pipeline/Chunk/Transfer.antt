-- ===== src/Pipeline/Chunk/Transfer.antt =====
-- internal/pipeline/chunk.go: one chunk, from the sender to the pipe of the receiver.
use jsync.Base.{
  ℕ, zero, suc, ◌+◌, ◌%◌, ◌^◌, ◌<◌, ◌≡◌, refl, ap, ◌∙◌, ◌≢◌, inr, Bool, true, false, Option, none,
  some, List, [], ◌∷◌, ◌++◌, map, Bytes, nat_eq, bytes_eq, list_beq, ◌==◌, ◌&&◌, arith,
  if◌then◌else◌,
}
use jsync.Base.Dict
use jsync.Crypto.Primitives.{Primitives}
use jsync.Crypto.Primitives as Prims
use jsync.Crypto.Ratchet as Ratchet
use jsync.Crypto.Ratchet.{Chain, encrypt, decrypt}
use jsync.Crypto.Ratchet.Laws.{decrypt-encrypt}
use jsync.Pipeline.Chunk.Encoding.{Codec, IsLawful}
use jsync.Pipeline.Chunk.{
  Header, get, Msg, Encryption, set_bootstrap_headers, seal_chunk, chunk_headers, Delivery, Fetch,
  batch, go_on, finished, Receiver, DeriveChain, establish_chain, open_chunk, accept_chunk,
  receive_chunk, header_chunk_sequence, header_is_final_chunk, header_encrypted, true_text,
  header_bootstrap_dh_pub, header_bootstrap_ephemeral, header_bootstrap_otp_id, header_total_bytes,
}

-- Each message in a batch of its own, with nothing going wrong.
unfoldable pub deliver : List Msg → List Fetch
deliver =
    map (λ m. batch (record { msg = m; write_fails = false; ack_fails = false } ∷ []) false false)

module _ (C : Codec) where
  -- The headers that `seal_chunk` can leave: none, or those of an encrypted chunk.
  abbrev pub sealed_headers : Option Encryption → ℕ → Header
  sealed_headers none seq = []
  sealed_headers (some enc) seq =
      let h : Header = Dict.insert header_encrypted true_text [] in
      if seq == 0 then set_bootstrap_headers C h enc.bootstrap else h

  get-chunk_headers :
      (enc : Option Encryption) (seq : ℕ) (fin : Bool) (total : ℕ)
      → let h = chunk_headers C (sealed_headers enc seq) seq fin total in
        (get h header_chunk_sequence ≡ C.itoa seq)
        × ((get h header_is_final_chunk == true_text) ≡ fin)
        × ((get h header_encrypted == true_text) ≡ elim enc [ none ↦ false | some _ ↦ true ])
  unfolding get chunk_headers set_bootstrap_headers Dict.insert Dict.lookup list_beq
  get-chunk_headers none seq true total = (ground arith, ground arith, ground arith)
  get-chunk_headers none seq false total = (ground arith, ground arith, ground arith)
  get-chunk_headers (some enc) seq true total = (ground arith, ground arith, ground arith)
  get-chunk_headers (some enc) seq false total = (ground arith, ground arith, ground arith)

  -- On chunk 0 of an encrypted transfer the bootstrap headers hold what the sender put there.
  pub get-bootstrap :
      (enc : Encryption) (fin : Bool) (total : ℕ)
      → let h = chunk_headers C (sealed_headers (some enc) 0) 0 fin total in
        (get h header_bootstrap_dh_pub ≡ C.encode_base64 enc.bootstrap.initiator_dh_pub)
        × (get h header_bootstrap_ephemeral ≡ C.encode_base64 enc.bootstrap.ephemeral_pub)
        × (get h header_bootstrap_otp_id ≡ C.format_uint enc.bootstrap.used_otp_id)
  unfolding get chunk_headers set_bootstrap_headers Dict.insert Dict.lookup list_beq
  get-bootstrap enc true total = (ground arith, ground arith, ground arith)
  get-bootstrap enc false total = (ground arith, ground arith, ground arith)

-- The sender's chain and the receiver's stand at one place: before chunk 0 the receiver can derive
-- the sender's chain from the headers, and later it has it.
pub record Agrees (P : Primitives) (C : Codec) (derive : Option DeriveChain) (ad : Bytes) (seq : ℕ)
    (enc : Encryption) (r : Receiver) : Type 0 where
  pub same_ad : enc.associated_data ≡ ad
  pub at_seq : enc.chain.n ≡ seq
  pub at_start :
      (fin : Bool) (total : ℕ)
      → seq ≡ 0
      → establish_chain P C derive
          (chunk_headers C (sealed_headers C (some enc) 0) 0 fin total)
          0
          r.chain
        ≡ inr enc.chain
  pub later : seq ≢ 0 → r.chain ≡ some enc.chain

abbrev pub AgreesOpt :
    Primitives → Codec → Option DeriveChain → Bytes → ℕ → Option Encryption → Receiver → Type 0
AgreesOpt P C derive ad seq none r = Unit
AgreesOpt P C derive ad seq (some enc) r = Agrees P C derive ad seq enc r

module _ (P : Primitives) (L : Prims.IsLawful P) (C : Codec) (W : IsLawful C)
    (derive : Option DeriveChain) (ad : Bytes) (observed : Bool) where
  next_total : Header → ℕ → Option ℕ → Option ℕ
  next_total h seq old =
      if seq == 0 && observed then some (C.parse_int (get h header_total_bytes)) else old

  abbrev received : Receiver → Header → ℕ → Option Chain → Bytes → Receiver
  received r h seq chain' payload = record {
    want_seq = r.want_seq + 1;
    chain = chain';
    written = r.written ++ payload;
    total = next_total h seq r.total;
  }

  receive_chunk-ok :
      (r : Receiver) (d : Delivery) (seq : ℕ) (chain' : Option Chain) (payload : Bytes) (fin : Bool)
      → C.atoi (get d.msg.header header_chunk_sequence) ≡ some seq
      → r.want_seq ≡ seq
      → (get d.msg.header header_is_final_chunk == true_text) ≡ fin
      → open_chunk P C derive ad d.msg seq r.chain ≡ (chain', inr payload)
      → d.write_fails ≡ false
      → d.ack_fails ≡ false
      → receive_chunk P C derive ad observed r d
        ≡ (received r d.msg.header seq chain' payload, if fin then finished else go_on)
  unfolding receive_chunk accept_chunk next_total
  receive_chunk-ok r d seq chain' payload fin hs w hf ho hw ha = ground arith

  open_chunk-plain :
      (msg : Msg) (seq : ℕ) (chain : Option Chain)
      → (get msg.header header_encrypted == true_text) ≡ false
      → open_chunk P C derive ad msg seq chain ≡ (chain, inr msg.payload)
  unfolding open_chunk
  open_chunk-plain msg seq chain h = rw h

  open_chunk-sealed :
      (msg : Msg) (seq : ℕ) (chain : Option Chain) (c c' : Chain) (text : Bytes)
      → (get msg.header header_encrypted == true_text) ≡ true
      → establish_chain P C derive msg.header seq chain ≡ inr c
      → decrypt P c msg.payload ad seq ≡ (c', Ratchet.ok text)
      → seq < 2 ^ 32
      → open_chunk P C derive ad msg seq chain ≡ (some c', inr text)
  unfolding open_chunk
  open_chunk-sealed msg seq chain c c' text h he hd small =
      let same : seq % 2 ^ 32 ≡ seq = omega arith in ground arith

  seal_chunk-sealed :
      (enc : Encryption) (seq : ℕ) (text sent : Bytes) (c' : Chain)
      → encrypt P enc.chain text enc.associated_data ≡ (c', Ratchet.ok (sent, seq))
      → seal_chunk P C (some enc) seq text
        ≡ (some (record enc { chain = c' }), inr (sent, sealed_headers C (some enc) seq))
  unfolding seal_chunk
  seal_chunk-sealed enc seq text sent c' h = ground arith

  establish_chain-Agrees :
      (enc : Encryption) (seq : ℕ) (r : Receiver) (fin : Bool) (total : ℕ)
      → Agrees P C derive ad seq enc r
      → establish_chain P C derive
          (chunk_headers C (sealed_headers C (some enc) seq) seq fin total)
          seq
          r.chain
        ≡ inr enc.chain
  establish_chain-Agrees enc zero r fin total a = a.at_start fin total refl
  establish_chain-Agrees enc (suc n) r fin total a =
      unfold establish_chain in ground (arith, a.later)

  abbrev pub delivery : Header → Bytes → Delivery
  delivery h wire = record {
    msg = record { header = h; payload = wire };
    write_fails = false;
    ack_fails = false;
  }

  -- One round on both sides.
  pub receive_chunk-seal_chunk :
      (total : ℕ) (enc : Option Encryption) (seq : ℕ) (payload : Bytes) (fin : Bool) (r : Receiver)
      → AgreesOpt P C derive ad seq enc r
      → r.want_seq ≡ seq
      → seq + 1 < 2 ^ 32
      → (enc' : Option Encryption) × (wire : Bytes) × (h : Header) × (r' : Receiver) × (seal_chunk P
            C enc seq payload
          ≡ (enc', inr (wire, h)))
        × (receive_chunk P C derive ad observed r (delivery (chunk_headers C h seq fin total) wire)
            ≡ (r', if fin then finished else go_on))
        × (r'.written ≡ r.written ++ payload)
        × (r'.want_seq ≡ seq + 1)
        × AgreesOpt P C derive ad (seq + 1) enc' r'
  receive_chunk-seal_chunk total none seq payload fin r a w small =
      let (hs, hf, he) = get-chunk_headers C none seq fin total in
      let h = chunk_headers C [] seq fin total in
      (
        none,
        payload,
        [],
        received r h seq r.chain payload,
        unfold seal_chunk in refl,
        receive_chunk-ok r (delivery h payload) seq r.chain payload fin
            (ap C.atoi hs ∙ W.atoi-itoa seq) w hf (open_chunk-plain _ seq r.chain he) refl refl,
        refl,
        omega arith,
        tt,
      )
  receive_chunk-seal_chunk total (some enc) seq payload fin r a w small =
      let (hs, hf, he) = get-chunk_headers C (some enc) seq fin total in
      let plain = sealed_headers C (some enc) seq in
      let h = chunk_headers C plain seq fin total in
      let (c', sent, sealed, opened, next) = decrypt-encrypt P L enc.chain payload ad in
      let msg : Msg = record { header = h; payload = sent } in
      let at = a.at_seq in
      let known = establish_chain-Agrees enc seq r fin total a in
      (
        some (record enc { chain = c' }),
        sent,
        plain,
        received r h seq (some c') payload,
        seal_chunk-sealed enc seq payload sent c' (ground (arith, a.same_ad)),
        receive_chunk-ok r (delivery h sent) seq (some c') payload fin
            (ap C.atoi hs ∙ W.atoi-itoa seq) w hf
            (open_chunk-sealed msg seq r.chain enc.chain c' payload he known (ground arith)
              (omega arith))
            refl refl,
        refl,
        omega arith,
        record {
          same_ad = a.same_ad;
          at_seq = omega arith;
          at_start = λ fin total z. absurd (omega arith);
          later = λ z. refl;
        },
      )
