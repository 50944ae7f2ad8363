-- ===== src/Tests/Archive.antt =====
-- A small tree, of which the receiver has one file.
use jsync.Base.{◌≡◌, refl, Option, none, some, List, [], ◌∷◌, Bytes, codes}
use jsync.Base.Dict
use jsync.Base.Dict.{Dict}
use jsync.Pipeline.Archive.{
  Source, regular, link, folder, nil, cons, Written, write_archive, estimate_send_size,
}
use jsync.Pipeline.Extract.{type_reg, type_symlink}
use jsync.Pipeline.Archive.Estimate
use jsync.Pipeline.Archive.Estimate.{payload, AreKeptBelow, write_archive-estimate}

abbrev tree : Source
tree = folder (codes "/r") 493 (
    cons (regular (codes "/r/a") 420 2 (some (codes "hi"))) (
      cons (regular (codes "/r/b") 420 3 (some (codes "you")))
        (cons (link (codes "/r/c") (some (codes "a"))) nil)))

abbrev skip : Dict Bytes Bytes
skip = (codes "a", codes "hi") ∷ []

abbrev written : List Written
written =
    record {
      header = record { name = codes "b"; typeflag = type_reg; mode = 420; linkname = [] };
      text = codes "you";
    }
    ∷ record {
      header = record {
        name = codes "c";
        typeflag = type_symlink;
        mode = 511;
        linkname = codes "a";
      };
      text = [];
    }
    ∷ []

write_archive-estimate_example :
    estimate_send_size (λ text. text) skip none (codes "/r") tree ≡ some (payload written)
unfolding Dict.lookup write_archive jsync.Pipeline.Archive.add_sources Estimate.AreAllKept
    jsync.Pipeline.Archive.excludes jsync.Pipeline.Archive.add_regular
    jsync.Pipeline.Archive.file_matches_hash jsync.Pipeline.Archive.write_regular
    jsync.Pipeline.Archive.add_link jsync.Pipeline.Archive.header_of jsync.FilePath.rel
    jsync.FilePath.rel_of jsync.FilePath.cleaned_beq jsync.FilePath.same_root jsync.FilePath.parse
    jsync.FilePath.is_rooted jsync.Base.list_beq jsync.FilePath.push_parts
    jsync.FilePath.split_slash jsync.FilePath.extend_first jsync.FilePath.push_part
    jsync.FilePath.from_stripped jsync.FilePath.strip_common jsync.FilePath.target_parts
    jsync.FilePath.join_slash jsync.FilePath.go_up jsync.FilePath.clean jsync.FilePath.render
write_archive-estimate_example =
    write_archive-estimate (λ text. text) skip none (codes "/r") tree {ws = written}
      (refl, (tt, (tt, tt))) refl
