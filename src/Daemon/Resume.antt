-- ===== src/Daemon/Resume.antt =====
-- internal/daemon/resume.go: sandboxes of failed transfers that a later attempt may claim.
pub mod Claims
use jsync.Base.{
  ℕ, ◌+◌, ◌≡◌, ◌↔◌, Bool, true, ◌&&◌, Option, none, some, List, [], ◌∷◌, Bytes, bytes_eq, Eq, ◌==◌,
  ltb, arith, if◌then◌else◌,
}
use jsync.Base.Dict
use jsync.Base.Dict.{Dict}
use jsync.FilePath.{clean}
use jsync.Handshake.{ResumedFile}

-- five minutes, in nanoseconds
abbrev pub resume_grace_period : ℕ
resume_grace_period = 300000000000

pub record ResumeKey : Type 0 where
  pub peer_pub : Bytes
  pub dest_path : Bytes

abbrev pub key_beq : ResumeKey → ResumeKey → Bool
key_beq a b = a.peer_pub == b.peer_pub && a.dest_path == b.dest_path

pub key_beq_iff : (a b : ResumeKey) → (key_beq a b ≡ true) ↔ (a ≡ b)
key_beq_iff a b =
    ground (arith, bytes_eq.beq_iff a.peer_pub b.peer_pub, bytes_eq.beq_iff a.dest_path b.dest_path)

-- Go compares a struct key field by field.
instance abbrev pub key_eq : Eq ResumeKey
key_eq = record { beq = key_beq; beq_iff = key_beq_iff }

pub record ResumeEntry : Type 0 where
  pub sandbox_dir : Bytes
  -- the hash of each file that was written whole
  pub completed : Dict Bytes Bytes
  pub expires_at : ℕ

pub record ResumeRegistry : Type 0 where
  pub entries : Dict ResumeKey ResumeEntry

unfoldable pub new_resume_registry : ResumeRegistry
new_resume_registry = record { entries = [] }

unfoldable pub new_resume_key : Bytes → Bytes → ResumeKey
new_resume_key peer_pub dest_path = record { peer_pub = peer_pub; dest_path = clean dest_path }

unfoldable pub park :
    ResumeRegistry → Bytes → Bytes → Bytes → Dict Bytes Bytes → ℕ → ℕ → ResumeRegistry
park r peer_pub dest_path sandbox_dir completed grace now =
    let entry : ResumeEntry = record {
      sandbox_dir = sandbox_dir;
      completed = completed;
      expires_at = now + grace;
    } in
    record { entries = Dict.insert (new_resume_key peer_pub dest_path) entry r.entries }

-- The entry is gone after the call, also when it had expired.
unfoldable pub claim :
    ResumeRegistry → Bytes → Bytes → ℕ → ResumeRegistry × Option (Bytes × Dict Bytes Bytes)
claim r peer_pub dest_path now =
    let key = new_resume_key peer_pub dest_path in
    elim (Dict.lookup key r.entries) [
      | none ↦ (r, none)
      | some entry ↦
          let rest : ResumeRegistry = record { entries = Dict.delete key r.entries } in
          if ltb entry.expires_at now
          then (rest, none)
          else (rest, some (entry.sandbox_dir, entry.completed))
    ]

unfoldable pub resumed_files : Dict Bytes Bytes → List ResumedFile
resumed_files [] = []
resumed_files ((rel_path, hash) ∷ completed) =
    record { rel_path = rel_path; content_hash = hash } ∷ resumed_files completed

unfoldable pub peek : ResumeRegistry → Bytes → Bytes → ℕ → List ResumedFile
peek r peer_pub dest_path now = elim (Dict.lookup (new_resume_key peer_pub dest_path) r.entries) [
  | none ↦ []
  | some entry ↦ if ltb entry.expires_at now then [] else resumed_files entry.completed
]

-- The entries that are kept, and the sandboxes of those that are not.
unfoldable pub sweep_entries :
    Dict ResumeKey ResumeEntry → ℕ → Dict ResumeKey ResumeEntry × List Bytes
sweep_entries [] now = ([], [])
sweep_entries ((key, entry) ∷ entries) now =
    let (kept, expired) = sweep_entries entries now in
    if ltb entry.expires_at now
    then (kept, entry.sandbox_dir ∷ expired)
    else ((key, entry) ∷ kept, expired)

unfoldable pub sweep : ResumeRegistry → ℕ → ResumeRegistry × List Bytes
sweep r now =
    let (kept, expired) = sweep_entries r.entries now in (record { entries = kept }, expired)
