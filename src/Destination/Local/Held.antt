-- ===== src/Destination/Local/Held.antt =====
-- What stands at a place of the disk, and what Read gives of it.
use supaback.Prelude.{Text, Option, none, some, ok, ◌≡◌, refl}
use supaback.Path.{locate, join_path}
use supaback.Disk.{Disk, Node, file, directory, stat, open_file, open_place}
use supaback.Destination.Local.{read, opened}
use supaback.Destination.Local.Spared.{Holds}

-- Opening a place that is read to the end is opening a file.
opened-file :
    (base_path body : Text) (o : Option Text) (n : Option Node)
    → opened base_path (open_place o n) ≡ ok (record { body = body; failure = none })
    → (o ≡ none) × (n ≡ some (file body))
unfolding opened open_place
opened-file base_path body none (some (file b)) h = (refl, cc)
opened-file base_path body none (some directory) h = cc
opened-file base_path body none none h = cc
opened-file base_path body (some e) n h = cc

pub read-Holds :
    (base_path key body : Text) (d : Disk)
    → (read base_path key d).0 ≡ ok (record { body = body; failure = none })
    → Holds (locate (join_path base_path key)) body d
unfolding read open_file
read-Holds base_path key body d h =
    opened-file base_path body (d.denied (locate (join_path base_path key)))
      (stat d.nodes (locate (join_path base_path key))) h

pub Holds-read :
    (base_path key body : Text) (d : Disk)
    → Holds (locate (join_path base_path key)) body d
    → (read base_path key d).0 ≡ ok (record { body = body; failure = none })
unfolding read opened open_file open_place
Holds-read base_path key body d h = rw (h.0, h.1) refl
