-- ===== src/Tests/Scan.antt =====
-- A synced root with one file, one link and one excluded directory.
use jsync.Base.{◌≡◌, refl, ◌⊎◌, Bool, none, some, [], ◌∷◌, Bytes, bytes_eq, ◌==◌, length, codes}
use jsync.Base.Dict
use jsync.Syncfs.Event.{ManifestEntry, Manifest}
use jsync.Syncfs.Session.{ScannedList, entry, folder, nil, cons, scan_manifest}
use jsync.Syncfs.Session
use jsync.Syncfs.Session.Scanning.{HoldsIn, scan_manifest-HoldsIn}

abbrev hash : Bytes → Bytes
hash text = text

abbrev is_git : Bytes → Bool
is_git r = r == codes ".git"

abbrev root : Bytes
root = codes "/s"

abbrev entries : ScannedList
entries = cons (entry (codes "/s/a") (some (codes "hi"))) (
    cons (entry (codes "/s/link") none) (
      cons (folder (codes "/s/.git") (cons (entry (codes "/s/.git/x") (some (codes "x"))) nil))
        nil))

abbrev inventory : Manifest
inventory = (codes "a", record { hash = codes "hi"; size = length (codes "hi") }) ∷ []

scanned : scan_manifest hash is_git root entries ≡ some inventory
unfolding scan_manifest Session.scan_list Session.scan_tree Session.scan_file Dict.insert
    jsync.FilePath.rel jsync.FilePath.rel_of jsync.FilePath.cleaned_beq jsync.FilePath.same_root
    jsync.FilePath.parse jsync.FilePath.is_rooted jsync.Base.list_beq jsync.FilePath.push_parts
    jsync.FilePath.split_slash jsync.FilePath.extend_first jsync.FilePath.push_part
    jsync.FilePath.from_stripped jsync.FilePath.strip_common jsync.FilePath.target_parts
    jsync.FilePath.escapes jsync.FilePath.join_slash jsync.FilePath.go_up jsync.FilePath.has_prefix
scanned = refl

scan_manifest-HoldsIn_example :
    ((listed : ManifestEntry) × (Dict.lookup (codes "a") inventory ≡ some listed)
      × HoldsIn hash is_git root (codes "a") listed entries)
    ⊎ ((Dict.lookup (codes "a") inventory ≡ none)
        × ((listed : ManifestEntry) → ¬ HoldsIn hash is_git root (codes "a") listed entries))
scan_manifest-HoldsIn_example =
    scan_manifest-HoldsIn hash is_git root entries inventory (codes "a") scanned
