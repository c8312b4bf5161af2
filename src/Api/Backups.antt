-- ===== src/Api/Backups.antt =====
-- internal/api/handlers.go: the listing of the backups at the destination.
use mathlib.Core.Path.{subst}
use supaback.Prelude.{
  ◌⊎◌, ℕ, ◌+◌, ◌^◌, ◌<◌, Text, List, [], ◌∷◌, Result, ok, err, ◌≡◌, refl, sym, ap, ◌∙◌, arith, map,
  All, In, inl, inr,
}
use supaback.Prelude.Int.{ℤ, pos, negsuc, pos_part, neg_part, add_int64, add_int64-pos}
use supaback.Path.{base}
use supaback.Destination.{Destination, FileInfo}
use supaback.Api.{Body, BackupFile, BackupDate, Response, backups, respond, fail}

-- The loop over the files of a date: `entry.TotalBytes += f.Size`.
unfoldable pub total : ℤ → List FileInfo → ℤ
total sum [] = sum
total sum (f ∷ fs) = total (add_int64 sum f.size) fs

file_of : FileInfo → BackupFile
file_of f = record { key = f.key; name = base f.key; size = f.size }

unfoldable pub entry_of_date : Text → List FileInfo → BackupDate
unfolding file_of
entry_of_date date files = record {
  date = date;
  total_bytes = total (pos 0) files;
  files = map file_of files;
}

module _ {W : Type 0} (dest : Destination W) where
  -- A date whose files cannot be listed is passed over.
  with_date : Text → Result (List FileInfo) → List BackupDate → List BackupDate
  with_date date (ok files) rest = entry_of_date date files ∷ rest
  with_date date (err e) rest = rest

  unfoldable pub list_dates : List Text → W → List BackupDate × W
  unfolding with_date
  list_dates [] w = ([], w)
  list_dates (date ∷ dates) w =
      let (files, w') = dest.list_files date w in
      let (rest, w'') = list_dates dates w' in (with_date date files rest, w'')

  answer : Result (List Text) → W → Response × W
  answer (err e) w = (fail 500 e, w)
  answer (ok dates) w =
      let (entries, w') = list_dates dates w in (respond 200 (backups entries), w')

  -- `ListBackups`.
  unfoldable pub list_backups : W → Response × W
  unfolding answer
  list_backups w = let (dates, w') = dest.list [] w in answer dates w'

-- The sum of sizes, of files none of which has a negative one.
abbrev pub sum_sizes : List BackupFile → ℕ
sum_sizes [] = 0
sum_sizes (f ∷ fs) = pos_part f.size + sum_sizes fs

abbrev pub NotNegative : BackupFile → Type 0
NotNegative f = neg_part f.size ≡ 0

add_size :
    (m : ℕ) (z : ℤ)
    → neg_part z ≡ 0
    → m + pos_part z < 2 ^ 63
    → add_int64 (pos m) z ≡ pos (m + pos_part z)
add_size m (pos n) h b = add_int64-pos m n b
add_size m (negsuc n) h b = absurd (omega arith)

total-sum :
    (acc : ℕ) (files : List FileInfo)
    → All NotNegative (map file_of files)
    → acc + sum_sizes (map file_of files) < 2 ^ 63
    → total (pos acc) files ≡ pos (acc + sum_sizes (map file_of files))
unfolding total file_of
total-sum acc [] h b = ap pos (omega arith)
total-sum acc (f ∷ fs) h b =
    ap (λ z. total z fs) (add_size acc f.size h.0 (omega arith))
    ∙ (total-sum (acc + pos_part f.size) fs h.1 (omega arith) ∙ ap pos (omega arith))

from_zero :
    (files : List FileInfo)
    → All NotNegative (map file_of files)
    → sum_sizes (map file_of files) < 2 ^ 63
    → total (pos 0) files ≡ pos (sum_sizes (map file_of files))
from_zero files h b = total-sum 0 files h (omega arith) ∙ ap pos (omega arith)

-- The dates of an answer.
abbrev shown : Body → List BackupDate
shown (backups entries) = entries
shown _ = []

module _ {W : Type 0} (dest : Destination W) where
  with_date-In :
      (date : Text) (r : Result (List FileInfo)) (rest : List BackupDate) (e : BackupDate)
      → In e (with_date dest date r rest)
      → ((files : List FileInfo) × (e ≡ entry_of_date date files)) ⊎ In e rest
  unfolding with_date
  with_date-In date (ok files) rest e (inl q) = inl (files, q)
  with_date-In date (ok files) rest e (inr i) = inr i
  with_date-In date (err m) rest e i = inr i

  -- An entry of the answer comes from a date and its files.
  list_dates-In :
      (dates : List Text) (w : W) (e : BackupDate)
      → In e (list_dates dest dates w).0
      → (date : Text) × (files : List FileInfo) × In date dates × (e ≡ entry_of_date date files)
  unfolding list_dates
  list_dates-In [] w e i = elim i [ ]
  list_dates-In (date ∷ dates) w e i =
      elim (with_date-In date (dest.list_files date w).0
        (list_dates dest dates (dest.list_files date w).1).0 e i) [
          | inl (files, q) ↦ (date, files, inl refl, q)
          | inr k ↦
              let (d, files, l, q) = list_dates-In dates (dest.list_files date w).1 e k in
              (d, files, inr l, q)
        ]

  answer_body :
      (r : Result (List Text)) (dates : List Text) (w : W) (entries : List BackupDate)
      → r ≡ ok dates
      → (answer dest r w).0 ≡ respond 200 (backups entries)
      → entries ≡ (list_dates dest dates w).0
  unfolding answer
  answer_body r dates w entries h a = sym (ap (λ q. shown q.body) (rw (h, answer) at a))

  -- Each date that `ListBackups` answers is one that the destination listed, and its total is the
  -- sum of the sizes of its files, where none is negative and the sum is below 2^63.
  pub list_backups_totals :
      (dates : List Text) (w : W) (entries : List BackupDate) (e : BackupDate)
      → (dest.list [] w).0 ≡ ok dates
      → (list_backups dest w).0 ≡ respond 200 (backups entries)
      → In e entries
      → All NotNegative e.files
      → sum_sizes e.files < 2 ^ 63
      → In e.date dates × (e.total_bytes ≡ pos (sum_sizes e.files))
  unfolding list_backups entry_of_date
  list_backups_totals dates w entries e h r i n b =
      let (date, files, listed, is) =
        list_dates-In dates (dest.list [] w).1 e
          (rw (← answer_body (dest.list [] w).0 dates (dest.list [] w).1 entries h r) i) in
      subst
        (λ (d : BackupDate).
          All NotNegative d.files
          → sum_sizes d.files < 2 ^ 63
          → In d.date dates × (d.total_bytes ≡ pos (sum_sizes d.files)))
        (sym is) (λ n' b'. (listed, from_zero files n' b')) n b
