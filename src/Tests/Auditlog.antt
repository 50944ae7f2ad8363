-- ===== src/Tests/Auditlog.antt =====
-- A log that is rotated, in files in memory.
use jsync.Base.{
  ℕ, zero, suc, ◌≤◌, ◌≡◌, ◌≢◌, refl, false, true, Option, none, some, List, [], ◌∷◌, ◌++◌, Bytes,
  codes, length, take, arith, if◌then◌else◌,
}
use jsync.FilePath.{Cleaned, parse, cleaned_beq}
use jsync.FilePath.Inside.{cleaned_beq_refl}
use jsync.Tests.Toy.{cleaned_beq-ne}
use jsync.Auditlog.{Record, Logger, Formats, max_backups, backup_path, log_all}
use jsync.Auditlog.Files
use jsync.Auditlog.Files.{LogFiles, opened}
use jsync.Auditlog.Size.{IsWithin, log_all-IsWithin}

abbrev Items : Type 0
Items = Cleaned → Option Bytes

abbrev files : LogFiles
files = record {
  State = Items;
  content = λ p s. s (parse p);
  mkdir_all = λ p s. (s, false);
  remove = λ p s. (λ c. if cleaned_beq (parse p) c then none else s c, false);
  rename = λ p p' s. (
    λ c.
        if cleaned_beq (parse p') c
        then s (parse p)
        else (if cleaned_beq (parse p) c then none else s c),
    false,
  );
  open_append =
      λ p s. (λ c. if cleaned_beq (parse p) c then some (opened (s (parse p))) else s c, false);
  write = λ p text s. (
    λ c. if cleaned_beq (parse p) c then some (opened (s (parse p)) ++ text) else s c,
    length text,
    false,
  );
  write_file = λ p text s. (λ c. if cleaned_beq (parse p) c then some text else s c, false);
}

take-length : (xs : Bytes) → take (length xs) xs ≡ xs
take-length [] = refl
take-length (x ∷ xs) = rw (take-length xs)

ne_sym : {a b : Cleaned} → a ≢ b → b ≢ a
ne_sym h e = h (cc)

files-IsLawful : Files.IsLawful files
files-IsLawful = record {
  content-rename_old = λ p p' s h ok.
      rw (cleaned_beq-ne (parse p') (parse p) (ne_sym h), cleaned_beq_refl (parse p)) refl;
  content-rename_failed = λ p p' q s h. cc;
  content-rename_ne = λ p p' q s h h'.
      rw
        (
          cleaned_beq-ne (parse p') (parse q) (ne_sym h'),
          cleaned_beq-ne (parse p) (parse q) (ne_sym h),
        )
        refl;
  content-remove_ne = λ p q s h. rw (cleaned_beq-ne (parse p) (parse q) (ne_sym h)) refl;
  content-open_failed = λ p s h. cc;
  content-open = λ p s ok. rw (cleaned_beq_refl (parse p)) refl;
  content-write = λ p text old s h. rw (cleaned_beq_refl (parse p), h, take-length text) refl;
  write-le = λ p text s. omega arith;
}

-- A record as the text of its path.
abbrev formats : Formats
formats = record {
  marshal = λ r. some r.rel_path;
  unmarshal = λ text. none;
  decimal = λ n. n ∷ [];
  abs = λ p. some p;
  hex_digest = λ text. text;
}

abbrev logger : Logger
logger = record {
  is_open = true;
  path = codes "/l/a";
  session = codes "s";
  max_bytes = 4;
  size = 3;
  err = none;
}

abbrev about : Bytes → Record
about p = record {
  op_id = 1;
  time = 0;
  session = [];
  dir = codes "in";
  origin = [];
  op = codes "write";
  rel_path = p;
  old_rel_path = [];
  content_hash = [];
  bytes = 0;
  outcome = codes "applied";
  conflict_path = [];
  detail = [];
}

abbrev stored : Items
stored = λ c. some (codes "abc")

backups_apart :
    (n : ℕ) → n ≤ max_backups → parse logger.path ≢ parse (backup_path formats logger.path n)
unfolding backup_path parse jsync.FilePath.is_rooted jsync.Base.list_beq jsync.FilePath.push_parts
    jsync.FilePath.split_slash jsync.FilePath.extend_first jsync.FilePath.push_part
backups_apart zero h = λ e. cc
backups_apart (suc zero) h = λ e. cc
backups_apart (suc (suc zero)) h = λ e. cc
backups_apart (suc (suc (suc zero))) h = λ e. cc
backups_apart (suc (suc (suc (suc zero)))) h = λ e. cc
backups_apart (suc (suc (suc (suc (suc n))))) h = λ e. omega arith

logger-IsWithin : IsWithin formats files 6 (codes "s") logger stored
unfolding parse jsync.FilePath.is_rooted jsync.Base.list_beq jsync.FilePath.push_parts
    jsync.FilePath.split_slash jsync.FilePath.extend_first jsync.FilePath.push_part
logger-IsWithin = record {
  counted = (codes "abc", refl, refl);
  within = omega arith;
  live = omega arith;
  limited = omega arith;
  limit = omega arith;
  own_session = refl;
  first_apart = λ e. cc;
  backups_apart = backups_apart;
}

log_all-IsWithin_example :
    IsWithin formats files 6
      (codes "s")
      (log_all formats files
        ((about (codes "bc"), 1) ∷ (about (codes "defgh"), 2) ∷ [])
        logger
        stored).1
      (log_all formats files
        ((about (codes "bc"), 1) ∷ (about (codes "defgh"), 2) ∷ [])
        logger
        stored).0
unfolding jsync.Auditlog.line_of jsync.Auditlog.stamped
log_all-IsWithin_example =
    log_all-IsWithin formats files files-IsLawful 6 (codes "s")
      ((about (codes "bc"), 1) ∷ (about (codes "defgh"), 2) ∷ []) logger stored logger-IsWithin
      (omega arith, (omega arith, tt))
