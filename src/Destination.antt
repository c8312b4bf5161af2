-- ===== src/Destination.antt =====
-- internal/destination/destination.go: what a backup is written to. `W` is the world that the
-- operations act on: a disk, a remote host, a bucket.
pub mod Local
pub mod S3
pub mod Sftp
pub mod Opening
use supaback.Path.{is_name}
use supaback.Prelude.{true, Text, Result, ok, List, [], Option, In, ◌≡◌, ◌≢◌, ◌↔◌}
use supaback.Prelude.Int.{ℤ}

-- Metadata of a single backup file.
pub record FileInfo : Type 0 where
  pub key : Text
  pub size : ℤ

-- An `io.Reader` as its consumer meets it: the bytes that it yields, and the error that ends it
-- where it does not end in EOF.
pub record Reader : Type 0 where
  pub body : Text
  pub failure : Option Text

pub record Destination (W : Type 0) : Type 0 where
  pub write : Text → Reader → W → Result ℤ × W
  pub list : Text → W → Result (List Text) × W
  pub list_files : Text → W → Result (List FileInfo) × W
  pub read : Text → W → Result Reader × W
  pub delete : Text → W → Result (Unit {0}) × W
  pub name : Text

-- What its comments promise of `List` at the root and of `Delete`: the entries are those of the
-- destination, a delete that succeeds removes its entry, and no
-- delete touches another one. A key that is no name may reach further, or elsewhere.
pub record IsLawful {W : Type 0} (dest : Destination W) (entries : W → List Text) : Type 0 where
  pub list_entries : (w : W) (names : List Text) → (dest.list [] w).0 ≡ ok names → names ≡ entries w
  pub entries-list : (w : W) → entries (dest.list [] w).1 ≡ entries w
  pub delete_other :
      (key e : Text) (w : W)
      → is_name key ≡ true
      → e ≢ key
      → In e (entries (dest.delete key w).1) ↔ In e (entries w)
  pub delete_self :
      (key : Text) (w : W)
      → is_name key ≡ true
      → (dest.delete key w).0 ≡ ok tt
      → ¬ In key (entries (dest.delete key w).1)
  pub delete_adds_nothing :
      (key e : Text) (w : W) → In e (entries (dest.delete key w).1) → In e (entries w)
