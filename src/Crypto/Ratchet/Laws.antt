-- ===== src/Crypto/Ratchet/Laws.antt =====
-- internal/crypto/ratchet/ratchet.go: two chains with one starting state.
use jsync.Base.{
  ℕ, ◌+◌, ◌%◌, ◌^◌, ◌<◌, ◌≡◌, refl, ◌≢◌, List, [], ◌∷◌, Bytes, nat_eq, arith, take, drop,
  length-drop, length-take_of_le,
}
use jsync.Crypto.Primitives.{Primitives, IsLawful}
use jsync.Crypto.Ratchet.{
  RatchetError, info_chain_key, ◌>>=◌, out_of_order, Result, ok, err, Chain, Step, kdf_ck, new_gcm,
  next_cipher, advance, encrypt, decrypt, init_sending, init_receiving, init_chain,
}

-- `Encrypt` for each text in turn, and `Decrypt` for each message in turn; an error ends the run.
pub send_all : (P : Primitives) → Bytes → List Bytes → Chain → Result (Chain × List (Bytes × ℕ))
send_all P ad [] c = ok (c, [])
send_all P ad (text ∷ texts) c =
    let (c', result) = encrypt P c text ad in
    do sent ← result; (c'', more) ← send_all P ad texts c'; ok (c'', sent ∷ more)

pub receive_all : (P : Primitives) → Bytes → List (Bytes × ℕ) → Chain → Result (Chain × List Bytes)
receive_all P ad [] c = ok (c, [])
receive_all P ad ((ciphertext, seq) ∷ messages) c =
    let (c', result) = decrypt P c ciphertext ad seq in
    do text ← result; (c'', more) ← receive_all P ad messages c'; ok (c'', text ∷ more)

module _ (P : Primitives) (L : IsLawful P) where
  next_cipher-ok : (c : Chain) → (step : Step) × (next_cipher P c ≡ ok (step, step.cipher_key))
  unfolding next_cipher kdf_ck new_gcm
  next_cipher-ok c =
      let (out, made, size) = L.hkdf_total c.key [] info_chain_key 76 (omega arith) in
      let key = take 32 (drop 32 out) in
      let accepted =
        L.gcm_accepts_32 key
          (length-take_of_le 32 (drop 32 out) (omega (arith, length-drop {0} 32 out))) in
      (record { next_chain_key = take 32 out; cipher_key = key; nonce = drop 64 out }, ground arith)

  -- One message: the receiving chain, in the state of the sending one, gets the text back, and
  -- both move to one next state.
  pub decrypt-encrypt :
      (c : Chain) (text ad : Bytes)
      → (c' : Chain) × (sent : Bytes) × (encrypt P c text ad ≡ (c', ok (sent, c.n)))
        × (decrypt P c sent ad c.n ≡ (c', ok text))
        × (c'.n ≡ (c.n + 1) % 2 ^ 32)
  unfolding encrypt decrypt
  decrypt-encrypt c text ad =
      let (step, made) = next_cipher-ok c in
      (
        advance c step,
        P.seal step.cipher_key step.nonce text ad,
        rw (made, encrypt),
        ground (arith, L.unseal-seal step.cipher_key step.nonce text ad),
        refl,
      )

  -- For any texts, a sending chain encrypts all of them and a receiving chain in the same state
  -- decrypts them all back in order; both end in the same state.
  pub receive_all-send_all :
      (ad : Bytes) (texts : List Bytes) (c : Chain)
      → (c' : Chain) × (messages : List (Bytes × ℕ)) × (send_all P ad texts c ≡ ok (c', messages))
        × (receive_all P ad messages c ≡ ok (c', texts))
  unfolding send_all receive_all
  receive_all-send_all ad [] c = (c, [], refl, refl)
  receive_all-send_all ad (text ∷ texts) c =
      let (c', sent, enc, dec, _) = decrypt-encrypt c text ad in
      let (c'', messages, all_sent, all_received) = receive_all-send_all ad texts c' in
      (c'', (sent, c.n) ∷ messages, rw (enc, all_sent), rw (dec, all_received))

  -- From one shared secret and the two halves of a Diffie-Hellman exchange, the initiator's
  -- sending chain and the responder's receiving chain are the same chain.
  pub init_receiving-init_sending :
      (sk a b : Bytes)
      → init_sending P sk a (P.public_key b) ≡ init_receiving P sk b (P.public_key a)
  unfolding init_sending init_receiving init_chain
  init_receiving-init_sending sk a b = rw (init_chain, L.ecdh_comm a b)

module _ (P : Primitives) where
  -- A message is decrypted only under the sequence number that the chain waits for, and a call
  -- that fails, for this reason or another, leaves the chain as it was.
  pub decrypt-strict :
      (c : Chain) (sent ad : Bytes) (seq : ℕ)
      → ((seq ≢ c.n) → decrypt P c sent ad seq ≡ (c, err (out_of_order seq c.n)))
        × ((e : RatchetError)
            → (decrypt P c sent ad seq).1 ≡ err e
            → (decrypt P c sent ad seq).0 ≡ c)
        × ((e : RatchetError) → (encrypt P c sent ad).1 ≡ err e → (encrypt P c sent ad).0 ≡ c)
  unfolding decrypt encrypt
  decrypt-strict c sent ad seq = (ground arith, λ e h. ground arith, λ e h. ground arith)

  decrypt-next :
      (c : Chain) (sent ad text : Bytes) (seq : ℕ)
      → (decrypt P c sent ad seq).1 ≡ ok text
      → (seq ≡ c.n) × ((decrypt P c sent ad seq).0.n ≡ (c.n + 1) % 2 ^ 32)
  unfolding decrypt
  decrypt-next c sent ad text seq h = (ground arith, ground arith)

  -- A message that a chain with a 32-bit sequence number decrypted is refused when it is presented
  -- again right away.
  pub decrypt-twice :
      (c : Chain) (sent ad text : Bytes) (seq : ℕ)
      → c.n < 2 ^ 32
      → (decrypt P c sent ad seq).1 ≡ ok text
      → let c' = (decrypt P c sent ad seq).0 in
        decrypt P c' sent ad seq ≡ (c', err (out_of_order seq c'.n))
  decrypt-twice c sent ad text seq small h =
      let (now, next) = decrypt-next c sent ad text seq h in
      (decrypt-strict (decrypt P c sent ad seq).0 sent ad seq).0 (omega arith)
