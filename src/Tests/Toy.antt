-- ===== src/Tests/Toy.antt =====
-- Instances of the outside interfaces that meet their laws: they show that the laws can hold.
use jsync.Base.{
  ◌+◌, ◌≡◌, refl, ◌≢◌, true, false, Option, none, some, [], ◌∷◌, Bytes, arith, length, replicate,
  Bool-cases, inl, inr, if◌then◌else◌, length-replicate,
}
use jsync.FilePath.{Cleaned, parse, cleaned_beq}
use jsync.FilePath.Inside.{Inside, cleaned_beq_refl, cleaned_beq-parts}
use jsync.Crypto.Primitives
use jsync.Crypto.Primitives.{Primitives}
use jsync.Syncfs.Disk
use jsync.Syncfs.Disk.{Disk}
use jsync.Syncfs.Event.Confined.{Inside-refl}
use jsync.Pipeline.Chunk.Encoding
use jsync.Pipeline.Chunk.Encoding.{Codec}

abbrev pub primitives : Primitives
primitives = record {
  hkdf = λ secret salt info size. some (replicate size (length secret));
  gcm_accepts = λ key. true;
  seal = λ key nonce text ad. text;
  unseal = λ key nonce text ad. some text;
  public_key = λ priv. priv;
  ecdh = λ a b. some ((length a + length b) ∷ []);
  new_public_key = λ bytes. some bytes;
  verifying_key = λ priv. priv;
  sign = λ priv text. priv;
  verify = λ key text sig. true;
}

pub primitives-IsLawful : Primitives.IsLawful primitives
primitives-IsLawful = record {
  hkdf_total = λ secret salt info size h.
      (replicate size (length secret), refl, length-replicate size (length secret));
  gcm_accepts_32 = λ key h. refl;
  unseal-seal = λ key nonce text ad. refl;
  ecdh_comm = λ a b. ground arith;
  verify-sign = λ priv text. refl;
}

-- A number as one byte, a key as itself.
abbrev pub codec : Codec
codec = record {
  itoa = λ n. n ∷ [];
  atoi = λ s. elim s [ [] ↦ none | n ∷ _ ↦ some n ];
  format_uint = λ n. n ∷ [];
  parse_uint = λ s. elim s [ [] ↦ none | n ∷ _ ↦ some n ];
  parse_int = λ s. elim s [ [] ↦ 0 | n ∷ _ ↦ n ];
  encode_base64 = λ b. b;
  decode_base64 = λ b. some b;
}

pub codec-IsLawful : Encoding.IsLawful codec
codec-IsLawful = record {
  atoi-itoa = λ n. refl;
  parse_uint-format_uint = λ n h. refl;
  parse_int-format_uint = λ n h. refl;
  decode-encode = λ b. refl;
}

-- A file system in memory, where every directory is there.
abbrev pub Files : Type 0
Files = Cleaned → Option Bytes

abbrev pub disk : Disk
disk = record {
  State = Files;
  mkdir_all = λ p s. (s, false);
  write_file = λ p text s. (λ c. if cleaned_beq (parse p) c then some text else s c, false);
  remove_all = λ p s. (λ c. if cleaned_beq (parse p) c then none else s c, false);
  rename = λ p p' s. (
    λ c.
        if cleaned_beq (parse p') c
        then s (parse p)
        else (if cleaned_beq (parse p) c then none else s c),
    false,
  );
  read_file = λ p s. s (parse p);
}

cleaned_beq-eq : (a b : Cleaned) → cleaned_beq a b ≡ true → a ≡ b
cleaned_beq-eq a b h = let (r, p) = cleaned_beq-parts a b h in cc

pub cleaned_beq-outside : (a b : Cleaned) → ¬ Inside a b → cleaned_beq a b ≡ false
cleaned_beq-outside a b h = elim (Bool-cases (cleaned_beq a b)) [
  | inl e ↦ absurd (h (rw (← cleaned_beq-eq a b e) (Inside-refl a)))
  | inr e ↦ e
]

pub cleaned_beq-ne : (a b : Cleaned) → a ≢ b → cleaned_beq a b ≡ false
cleaned_beq-ne a b h = elim (Bool-cases (cleaned_beq a b)) [
  | inl e ↦ absurd (h (cleaned_beq-eq a b e))
  | inr e ↦ e
]

pub disk-IsLawful : Disk.IsLawful disk
disk-IsLawful = record {
  read-write = λ p text s h. rw (cleaned_beq_refl (parse p)) refl;
  read-write_ne = λ p q text s h. rw (cleaned_beq-ne (parse p) (parse q) h) refl;
  read-mkdir = λ p q s. refl;
  read-remove = λ p q s h. rw (cleaned_beq-outside (parse p) (parse q) h) refl;
  read-rename = λ p p' q s h h'.
      rw (cleaned_beq-outside (parse p') (parse q) h', cleaned_beq-outside (parse p) (parse q) h)
        refl;
}
