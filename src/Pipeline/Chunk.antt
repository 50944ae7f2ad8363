-- ===== src/Pipeline/Chunk.antt =====
-- internal/pipeline/chunk.go: an archive as numbered messages, and back.
-- Numbers, keys and base64 in headers go through a `Codec`, which stands for strconv and
-- encoding/base64. A header that is absent reads as the empty text.
pub mod Encoding
pub mod Transfer
pub mod RoundTrip
use jsync.Base.{
  ℕ, zero, suc, ◌+◌, ◌%◌, ◌^◌, Bool, true, false, not, Option, none, some, List, [], ◌∷◌, ◌++◌,
  Bytes, nat_eq, bytes_eq, ◌==◌, ◌&&◌, ◌⊎◌, inl, inr, codes, length, take, drop, ltb, leb,
  if◌then◌else◌,
}
use jsync.Base.Dict
use jsync.Base.Dict.{Dict}
use jsync.Base.Options.{◌>>=◌}
use jsync.Crypto.Primitives.{Primitives}
use jsync.Crypto.Ratchet as Ratchet
use jsync.Crypto.Ratchet.{Chain, encrypt, decrypt}
use Encoding.{Codec}

abbrev pub header_chunk_sequence : Bytes
header_chunk_sequence = codes "Chunk-Sequence"

abbrev pub header_is_final_chunk : Bytes
header_is_final_chunk = codes "Is-Final-Chunk"

abbrev pub header_encrypted : Bytes
header_encrypted = codes "Encrypted"

abbrev pub header_bootstrap_dh_pub : Bytes
header_bootstrap_dh_pub = codes "Bootstrap-Initiator-Dh-Pub"

abbrev pub header_bootstrap_ephemeral : Bytes
header_bootstrap_ephemeral = codes "Bootstrap-Ephemeral-Pub"

abbrev pub header_bootstrap_otp_id : Bytes
header_bootstrap_otp_id = codes "Bootstrap-Used-Otp-Id"

abbrev pub header_total_bytes : Bytes
header_total_bytes = codes "Total-Bytes"

abbrev pub true_text : Bytes
true_text = codes "true"

abbrev pub false_text : Bytes
false_text = codes "false"

abbrev pub default_chunk_size : ℕ
default_chunk_size = 524288

abbrev pub Header : Type 0
Header = Dict Bytes Bytes

unfoldable pub get : Header → Bytes → Bytes
get h key = elim (Dict.lookup key h) [ none ↦ [] | some v ↦ v ]

pub record Msg : Type 0 where
  pub header : Header
  pub payload : Bytes

pub record EncryptionBootstrap : Type 0 where
  pub initiator_dh_pub : Bytes
  pub ephemeral_pub : Bytes
  pub used_otp_id : ℕ

pub record Encryption : Type 0 where
  pub chain : Chain
  pub associated_data : Bytes
  pub bootstrap : EncryptionBootstrap

-- What is left to read, and whether the reader ends in an error instead of EOF.
pub record Reader : Type 0 where
  pub rest : Bytes
  pub breaks : Bool

pub data ReadStatus : Type 0 where
  full ended broken : ReadStatus

-- `io.ReadFull` into a buffer of the size: `ended` is EOF or ErrUnexpectedEOF.
unfoldable pub read_full : ℕ → Reader → Bytes × ReadStatus × Reader
read_full size r =
    if leb size (length r.rest)
    then (take size r.rest, full, record r { rest = drop size r.rest })
    else (r.rest, (if r.breaks then broken else ended), record r { rest = [] })

pub data PublishError : Type 0 where
  read_failed publish_failed out_of_fuel : ℕ → PublishError
  encrypt_failed : ℕ → Ratchet.RatchetError → PublishError
  -- the ratchet's sequence number, and the chunk's
  sequence_diverged : ℕ → ℕ → PublishError

pub data Published : Type 0 where
  sent_all : Published
  publish_error : PublishError → Published

module _ (C : Codec) where
  unfoldable pub set_bootstrap_headers : Header → EncryptionBootstrap → Header
  set_bootstrap_headers h b = Dict.insert header_bootstrap_otp_id (C.format_uint b.used_otp_id) (
      Dict.insert header_bootstrap_ephemeral (C.encode_base64 b.ephemeral_pub)
        (Dict.insert header_bootstrap_dh_pub (C.encode_base64 b.initiator_dh_pub) h))

  unfoldable pub chunk_headers : Header → ℕ → Bool → ℕ → Header
  chunk_headers h seq is_final total_bytes =
      let h' =
        Dict.insert header_is_final_chunk (if is_final then true_text else false_text)
          (Dict.insert header_chunk_sequence (C.itoa seq) h) in
      if seq == 0 && ltb 0 total_bytes
      then Dict.insert header_total_bytes (C.format_uint total_bytes) h'
      else h'

module _ (P : Primitives) (C : Codec) where
  -- The part of a round between the read and the headers that every chunk has: the encryption
  -- after the chunk, the payload on the wire, and the headers.
  unfoldable pub seal_chunk :
      Option Encryption → ℕ → Bytes → Option Encryption × (Published ⊎ (Bytes × Header))
  seal_chunk none seq payload = (none, inr (payload, []))
  seal_chunk (some enc) seq payload =
      let (chain', result) = encrypt P enc.chain payload enc.associated_data in
      let enc' = some (record enc { chain = chain' }) in
      elim result [
        | Ratchet.err e ↦ (enc', inl (publish_error (encrypt_failed seq e)))
        | Ratchet.ok (ciphertext, chain_seq) ↦
            if chain_seq == seq
            then (
              enc',
              inr (
                ciphertext,
                let h : Header = Dict.insert header_encrypted true_text [] in
                    if seq == 0 then set_bootstrap_headers C h enc.bootstrap else h,
              ),
            )
            else (enc', inl (publish_error (sequence_diverged chain_seq seq)))
      ]

  -- The loop of `PublishArchive`: the messages that were published, and how it ended.
  -- `refuses seq` says that `js.PublishMsg` fails for that chunk.
  unfoldable pub publish_loop :
      (ℕ → Bool) → ℕ → ℕ → ℕ → Reader → Option Encryption → ℕ → List Msg × Published
  publish_loop refuses size total_bytes zero r enc seq = ([], publish_error (out_of_fuel seq))
  publish_loop refuses size total_bytes (suc fuel) r enc seq =
      let (payload, status, r') = read_full size r in
      let (enc', sealed) = seal_chunk enc seq payload in
      let rest = publish_loop refuses size total_bytes fuel r' enc' (seq + 1) in
      let is_final : Bool = elim status [ ended ↦ true | _ ↦ false ] in
      elim status [
        | broken ↦ ([], publish_error (read_failed seq))
        | _ ↦ elim sealed [
          | inl e ↦ ([], e)
          | inr (wire, h) ↦
              let msg : Msg = record {
                header = chunk_headers C h seq is_final total_bytes;
                payload = wire;
              } in
              if refuses seq
              then ([], publish_error (publish_failed seq))
              else if is_final
              then (msg ∷ [], sent_all)
              else (msg ∷ rest.0, rest.1)
        ]
      ]

  -- `PublishArchive`, with one round of fuel for each byte and one more.
  unfoldable pub publish_archive :
      (ℕ → Bool) → Reader → ℕ → Option Encryption → ℕ → List Msg × Published
  publish_archive refuses r chunk_size enc total_bytes =
      let size = (if chunk_size == 0 then default_chunk_size else chunk_size) in
      publish_loop refuses size total_bytes (length r.rest + 1) r enc 0

-- One message as it reaches the receiver, with how the pipe and the broker answer.
pub record Delivery : Type 0 where
  pub msg : Msg
  pub write_fails : Bool
  pub ack_fails : Bool

pub data Fetch : Type 0 where
  fetch_failed : Fetch
  -- the messages of a batch, whether it ends in an error, and whether ctx is done after it
  batch : List Delivery → Bool → Bool → Fetch

pub data ReceiveError : Type 0 where
  fetch_error batch_error no_chunk no_chain bad_sequence cancelled : ReceiveError
  wrong_order : ℕ → ℕ → ReceiveError
  no_derive bad_bootstrap write_error ack_error : ReceiveError
  decrypt_error : ℕ → Ratchet.RatchetError → ReceiveError

pub data Outcome : Type 0 where
  go_on finished : Outcome
  failed : ReceiveError → Outcome

pub record Receiver : Type 0 where
  pub want_seq : ℕ
  pub chain : Option Chain
  -- what went down the pipe
  pub written : Bytes
  -- the argument of the call of `onTotalBytes`
  pub total : Option ℕ

abbrev pub start : Receiver
start = record { want_seq = 0; chain = none; written = []; total = none }

-- `DeriveChainFunc`: identity key, ephemeral key, prekey id.
abbrev pub DeriveChain : Type 0
DeriveChain = Bytes → Bytes → ℕ → Option Chain

module _ (P : Primitives) (C : Codec) where
  unfoldable pub chain_from_bootstrap_headers : Header → DeriveChain → Option Chain
  chain_from_bootstrap_headers h derive_chain = do
    dh_pub_bytes ← C.decode_base64 (get h header_bootstrap_dh_pub)
    dh_pub ← P.new_public_key dh_pub_bytes
    ephemeral_bytes ← C.decode_base64 (get h header_bootstrap_ephemeral)
    ephemeral_pub ← P.new_public_key ephemeral_bytes
    otp_id ← C.parse_uint (get h header_bootstrap_otp_id)
    derive_chain dh_pub ephemeral_pub (otp_id % 2 ^ 32)

  -- The chain that a message is decrypted with, if there is one.
  unfoldable pub establish_chain :
      Option DeriveChain → Header → ℕ → Option Chain → ReceiveError ⊎ Chain
  establish_chain derive_chain h seq chain =
      if seq == 0
      then elim derive_chain [
        | none ↦ inl no_derive
        | some derive ↦ elim (chain_from_bootstrap_headers h derive) [
          | none ↦ inl bad_bootstrap
          | some c ↦ inr c
        ]
      ]
      else elim chain [ none ↦ inl no_chain | some c ↦ inr c ]

  -- The payload in the clear, with the chain after it.
  unfoldable pub open_chunk :
      Option DeriveChain → Bytes → Msg → ℕ → Option Chain → Option Chain × (ReceiveError ⊎ Bytes)
  open_chunk derive_chain associated_data msg seq chain =
      if get msg.header header_encrypted == true_text
      then elim (establish_chain derive_chain msg.header seq chain) [
        | inl e ↦ (chain, inl e)
        | inr c ↦
            let (c', result) = decrypt P c msg.payload associated_data (seq % 2 ^ 32) in
            elim result [
              | Ratchet.err e ↦ (some c', inl (decrypt_error seq e))
              | Ratchet.ok plaintext ↦ (some c', inr plaintext)
            ]
      ]
      else (chain, inr msg.payload)

  -- The write, the Ack and the end of a round.
  unfoldable pub accept_chunk : Receiver → Delivery → Bool → Bytes → Receiver × Outcome
  accept_chunk r d is_final payload =
      if d.write_fails
      then (r, failed write_error)
      else let r' = record r { written = r.written ++ payload } in
        if d.ack_fails
        then (r', failed ack_error)
        else (record r' { want_seq = r.want_seq + 1 }, if is_final then finished else go_on)

  -- The body of the loop over a batch. `observed` says that `onTotalBytes` is not nil.
  unfoldable pub receive_chunk :
      Option DeriveChain → Bytes → Bool → Receiver → Delivery → Receiver × Outcome
  receive_chunk derive_chain associated_data observed r d =
      let h = d.msg.header in
      elim (C.atoi (get h header_chunk_sequence)) [
        | none ↦ (r, failed bad_sequence)
        | some seq ↦
            if seq == r.want_seq
            then (let is_final = get h header_is_final_chunk == true_text in
                let total =
                  (if seq == 0 && observed
                    then some (C.parse_int (get h header_total_bytes))
                    else r.total) in
                let (chain', opened) = open_chunk derive_chain associated_data d.msg seq r.chain in
                let r' = record r { chain = chain'; total = total } in
                elim opened [
                  | inl e ↦ (r', failed e)
                  | inr payload ↦ accept_chunk r' d is_final payload
                ])
            else (r, failed (wrong_order seq r.want_seq))
      ]

  -- `for msg := range batch.Messages()`.
  unfoldable pub receive_batch :
      Option DeriveChain → Bytes → Bool → List Delivery → Receiver → Receiver × Outcome
  receive_batch derive_chain associated_data observed [] r = (r, go_on)
  receive_batch derive_chain associated_data observed (d ∷ ds) r =
      let (r', outcome) = receive_chunk derive_chain associated_data observed r d in
      elim outcome [
        | go_on ↦ receive_batch derive_chain associated_data observed ds r'
        | finished ↦ (r', finished)
        | failed e ↦ (r', failed e)
      ]

  -- `receiveLoop` over what the consumer's fetches bring; it goes on as long as they do.
  unfoldable pub receive_loop :
      Option DeriveChain → Bytes → Bool → List Fetch → Receiver → Receiver × Outcome
  receive_loop derive_chain associated_data observed [] r = (r, go_on)
  receive_loop derive_chain associated_data observed (fetch_failed ∷ fs) r = (r, failed fetch_error)
  receive_loop derive_chain associated_data observed (batch ds batch_fails ctx_done ∷ fs) r =
      let (r', outcome) = receive_batch derive_chain associated_data observed ds r in
      elim outcome [
        | finished ↦ (r', finished)
        | failed e ↦ (r', failed e)
        | go_on ↦ if batch_fails then (r', failed batch_error) else elim ds [
          | [] ↦ (r', failed no_chunk)
          | _ ∷ _ ↦
              if ctx_done
              then (r', failed cancelled)
              else receive_loop derive_chain associated_data observed fs r'
        ]
      ]
