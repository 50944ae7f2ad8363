-- ===== src/Tests/Pipeline.antt =====
-- Five bytes in encrypted chunks of two.
use jsync.Base.{◌≡◌, refl, true, some, [], ◌∷◌, arith, codes}
use jsync.Crypto.Ratchet.{Chain}
use jsync.Pipeline.Chunk.{
  Encryption, Receiver, start, DeriveChain, finished, sent_all, publish_archive, receive_loop,
}
use jsync.Pipeline.Chunk.Transfer.{deliver}
use jsync.Pipeline.Chunk.RoundTrip.{accepts, reader, CanDerive, receive_loop-publish_archive}
use jsync.Tests.Toy.{primitives, primitives-IsLawful, codec, codec-IsLawful}

abbrev fresh : Chain
fresh = record { key = 1 ∷ 2 ∷ []; n = 0 }

abbrev encryption : Encryption
encryption = record {
  chain = fresh;
  associated_data = codes "ad";
  bootstrap = record { initiator_dh_pub = 3 ∷ []; ephemeral_pub = 4 ∷ []; used_otp_id = 5 };
}

abbrev derive : DeriveChain
derive dh_pub ephemeral_pub otp_id = some fresh

derive-CanDerive : CanDerive primitives derive (codes "ad") encryption
derive-CanDerive = record {
  same_ad = refl;
  fresh = refl;
  dh_key = refl;
  ephemeral_key = refl;
  small_id = omega arith;
  derives = refl;
}

receive_loop-publish_archive_example :
    let (msgs, end) =
      publish_archive primitives codec accepts (reader (codes "hello")) 2 (some encryption) 5 in
    (r : Receiver) × (end ≡ sent_all)
    × (receive_loop primitives codec (some derive) (codes "ad") true (deliver msgs) start
        ≡ (r, finished))
    × (r.written ≡ codes "hello")
receive_loop-publish_archive_example =
    receive_loop-publish_archive primitives primitives-IsLawful codec codec-IsLawful (some derive)
      (codes "ad") true 2 5 (some encryption) (codes "hello") (omega arith) derive-CanDerive
