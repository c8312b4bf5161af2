-- ===== src/Backup/Database/Place.antt =====
-- Where the dump of a database backup to a local directory stands.
use supaback.Prelude.{
  Text, codes, List, [], ◌∷◌, ◌++◌, Bool, true, false, ◌≡◌, ◌≢◌, refl, sym, ap, ◌∙◌, arith,
  if◌then◌else◌, text_eq, text_eq_iff,
}
use supaback.Strconv.{split}
use supaback.Strconv.Split.{split-Lacks, split-append_sep}
use supaback.Path.{locate, join_path, is_name, lacks_slash}
use supaback.Path.Below.{NoUp, lacks_slash-Lacks, locate_under}
use supaback.Backup.Database.{Clock, key_of}

-- The key of a dump, without its date.
abbrev dump_name : Clock → Bool → Text
dump_name clock compress =
    codes "database/postgres_"
    ++ (clock.stamp ++ (codes ".dump" ++ (if compress then codes ".gz" else [])))

key_of_lem :
    (clock : Clock) (compress : Bool)
    → key_of clock compress ≡ clock.date ++ (b'/' ∷ dump_name clock compress)
unfolding key_of
key_of_lem clock compress = refl

lacks_slash-append :
    (s t : Text) → lacks_slash s ≡ true → lacks_slash t ≡ true → lacks_slash (s ++ t) ≡ true
unfolding lacks_slash
lacks_slash-append [] t h k = k
lacks_slash-append (c ∷ s) t h k = ground (arith, lacks_slash-append s t)

not_up : (x : Text) → text_eq x (codes "..") ≡ false → x ≢ codes ".."
not_up x h e = true_not_false (sym ((text_eq_iff x (codes "..")).1 e) ∙ h)
  where
    true_not_false : true ≢ false
    true_not_false q = cc

-- The file's own name.
abbrev file_name : Clock → Bool → Text
file_name clock compress =
    codes "postgres_" ++ (clock.stamp ++ (codes ".dump" ++ (if compress then codes ".gz" else [])))

file_name-lacks_slash :
    (clock : Clock) (compress : Bool)
    → lacks_slash clock.stamp ≡ true
    → lacks_slash (file_name clock compress) ≡ true
unfolding lacks_slash
file_name-lacks_slash clock true h = lacks_slash-append clock.stamp (codes ".dump.gz") h refl
file_name-lacks_slash clock false h = lacks_slash-append clock.stamp (codes ".dump") h refl

split-dump_name :
    (clock : Clock) (compress : Bool)
    → lacks_slash clock.stamp ≡ true
    → split b'/' (dump_name clock compress) ≡ codes "database" ∷ file_name clock compress ∷ []
split-dump_name clock compress h =
    split-append_sep b'/' (codes "database") (file_name clock compress)
    ∙ (ap (λ xs. xs ++ split b'/' (file_name clock compress))
          (split-Lacks b'/' (codes "database")
            (lacks_slash-Lacks (codes "database") (unfold lacks_slash in refl)))
        ∙ ap (λ xs. codes "database" ∷ xs)
            (split-Lacks b'/' (file_name clock compress) (
              lacks_slash-Lacks (file_name clock compress)
                (file_name-lacks_slash clock compress h))))

dump_name-NoUp :
    (clock : Clock) (compress : Bool)
    → lacks_slash clock.stamp ≡ true
    → NoUp (split b'/' (dump_name clock compress))
unfolding text_eq
dump_name-NoUp clock compress h =
    rw (split-dump_name clock compress h)
      (not_up (codes "database") refl, (not_up (file_name clock compress) refl, tt))

-- Where a dump lies: under its date.
pub dump_place :
    (base_path : Text) (clock : Clock) (compress : Bool)
    → is_name clock.date ≡ true
    → lacks_slash clock.stamp ≡ true
    → (ys : List Text) × (locate (join_path base_path (key_of clock compress))
        ≡ ys ++ (clock.date ∷ locate base_path))
unfolding key_of
dump_place base_path clock compress n h =
    locate_under base_path clock.date (dump_name clock compress) n (dump_name-NoUp clock compress h)
