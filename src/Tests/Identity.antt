-- ===== src/Tests/Identity.antt =====
-- A list of keys under an encoding that shifts every byte.
use jsync.Base.{
  ℕ, ◌+◌, ◌-◌, ◌≡◌, refl, ◌∙◌, Bool, true, false, not, ◌&&◌, ◌||◌, Option, none, some, List, [],
  ◌∷◌, Bytes, bytes_eq, nat_eq, ◌==◌, length, map, arith, replicate, codes, All, if◌then◌else◌,
}
use jsync.Identity.Authorized.{
  AuthorizedClients, TextLibrary, text, drop_cr, decode_public_key, skipped_line,
  load_authorized_clients, is_authorized, add, remove,
}
use jsync.Identity.Authorized.Persisted.{NoNewline, IsLawful, IsWellKept, load-add_remove}

abbrev encode : Bytes → Bytes
encode [] = []
encode (b ∷ s) = (b + 64) ∷ encode s

abbrev decode : Bytes → Bytes
decode [] = []
decode (b ∷ s) = (b - 64) ∷ decode s

abbrev library : TextLibrary
library = record {
  encode = encode;
  decode = λ s. some (decode s);
  trim_space = λ s. s;
  sort = λ lines. lines;
}

decode-encode : (s : Bytes) → decode (encode s) ≡ s
decode-encode [] = refl
decode-encode (b ∷ s) = ground (arith, decode-encode s)

length-encode : (s : Bytes) → length (encode s) ≡ length s
length-encode [] = refl
length-encode (b ∷ s) = omega (arith, length-encode s)

encode-NoNewline : (s : Bytes) → NoNewline (encode s)
encode-NoNewline [] = tt
encode-NoNewline (b ∷ s) = (λ e. absurd (omega arith), encode-NoNewline s)

drop_cr-encode : (s : Bytes) → drop_cr (encode s) ≡ encode s
unfolding drop_cr
drop_cr-encode [] = refl
drop_cr-encode (b ∷ []) = ground arith
drop_cr-encode (b ∷ b' ∷ s) = rw (drop_cr-encode (b' ∷ s)) refl

skipped_line-encode : (s : Bytes) → length s ≡ 32 → skipped_line library (encode s) ≡ false
unfolding skipped_line jsync.FilePath.has_prefix jsync.Base.list_beq
skipped_line-encode [] h = absurd (omega arith)
skipped_line-encode (b ∷ s) h = ground arith

decode_public_key-encode :
    (s : Bytes) → length s ≡ 32 → decode_public_key library (encode s) ≡ some s
unfolding decode_public_key
decode_public_key-encode s h = rw (decode-encode s, h) refl

library-IsLawful : IsLawful library
library-IsLawful = record {
  encode-IsKeyLine = λ s h. record {
    unbroken = encode-NoNewline s;
    no_cr = drop_cr-encode s;
    trimmed = refl;
    counts = skipped_line-encode s h;
    key = s;
    decodes = decode_public_key-encode s h;
  };
  sort_All = λ lines h. h;
  listed-sort = λ k lines. refl;
}

abbrev empty : AuthorizedClients
empty = record { path = codes "/k"; keys = [] }

empty-IsWellKept : IsWellKept library empty
unfolding jsync.Identity.Authorized.key_list
empty-IsWellKept = record { lines = tt; trusted = tt }

abbrev key : Bytes
key = replicate 32 1

load-add_remove_example :
    ((loaded : AuthorizedClients) × (load_authorized_clients library
          (codes "/k")
          (text (add library empty key).1)
        ≡ some loaded)
      × ((k : Bytes)
          → is_authorized library loaded k
            ≡ (library.encode key == library.encode k || is_authorized library empty k)))
    × ((loaded : AuthorizedClients) × (load_authorized_clients library
            (codes "/k")
            (text (remove library empty key).1)
          ≡ some loaded)
        × ((k : Bytes)
            → is_authorized library loaded k
              ≡ (not (library.encode key == library.encode k) && is_authorized library empty k)))
load-add_remove_example =
    load-add_remove library library-IsLawful empty (codes "/k") key empty-IsWellKept refl
