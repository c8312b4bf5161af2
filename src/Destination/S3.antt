-- ===== src/Destination/S3.antt =====
-- internal/destination/s3.go: a destination in a bucket. The AWS SDK is a parameter.
pub mod Pages
use supaback.Prelude.{
  ℕ, zero, suc, Text, codes, is_empty, List, [], ◌∷◌, ◌++◌, length, map, Bool, true, false, ◌&&◌,
  ◌==◌, Option, none, some, Result, ok, err, if◌then◌else◌,
}
use supaback.Prelude.Int.{ℤ, pos}
use supaback.Config.{S3Config}
use supaback.Destination.{FileInfo, Reader}
use supaback.Backup.{Outcome, done, failed, exhausted}

-- What the SDK's client is made of.
pub record S3Options : Type 0 where
  pub region : Text
  pub access_key_id : Text
  pub secret_access_key : Text
  pub use_path_style : Bool
  pub base_endpoint : Option Text

-- `s3Dest`.
pub record S3Dest : Type 0 where
  pub options : S3Options
  pub bucket : Text
  pub prefix : Text

-- An object of a listing; the SDK's pointers may be nil.
pub record S3Object : Type 0 where
  pub key : Option Text
  pub size : Option ℤ

-- A page of a listing: `next` is the token of the next page, if the listing is truncated.
pub record Page : Type 0 where
  pub contents : List S3Object
  pub common_prefixes : List (Option Text)
  pub next : Option Text

pub record ListInput : Type 0 where
  pub bucket : Text
  pub prefix : Text
  pub delimiter : Option Text

-- The SDK: `LoadDefaultConfig`, as its error, and the calls of the client. An answer of
-- `DeleteObjects` names, in its `Errors`, the keys that the service has not removed.
pub record Sdk (W : Type 0) : Type 0 where
  pub load_config : Text → Option Text
  pub put_object : Text → Text → Text → W → Option Text × W
  pub list_objects_v2 : ListInput → Option Text → W → Result Page × W
  pub get_object : Text → Text → W → Result Reader × W
  pub delete_objects : Text → List (Option Text) → W → Result (List (Option Text)) × W

abbrev pub or_region : Text → Text
or_region [] = codes "us-east-1"
or_region (c ∷ region) = c ∷ region

abbrev pub endpoint_of : Text → Option Text
endpoint_of [] = none
endpoint_of (c ∷ endpoint) = some (c ∷ endpoint)

unfoldable pub dest_of : S3Config → S3Dest
dest_of cfg = record {
  options = record {
    region = or_region cfg.region;
    access_key_id = cfg.access_key_id;
    secret_access_key = cfg.secret_access_key;
    use_path_style = cfg.force_path_style;
    base_endpoint = endpoint_of cfg.endpoint;
  };
  bucket = cfg.bucket;
  prefix = cfg.prefix;
}

-- `aws.ToString`.
abbrev pub to_string : Option Text → Text
to_string none = []
to_string (some s) = s

-- `strings.TrimPrefix(s, prefix)`: what is left of `s`, if it starts with the prefix.
unfoldable pub cut_prefix : Text → Text → Option Text
cut_prefix [] s = some s
cut_prefix (c ∷ prefix) [] = none
cut_prefix (c ∷ prefix) (d ∷ s) = let rest = cut_prefix prefix s in if c == d then rest else none

unfoldable pub trim_prefix : Text → Text → Text
trim_prefix prefix s = elim (cut_prefix prefix s) [ some rest ↦ rest | none ↦ s ]

-- `strings.TrimSuffix(s, "/")`.
unfoldable pub trim_slash_end : Text → Text
trim_slash_end [] = []
trim_slash_end (c ∷ s) =
    let rest = trim_slash_end s in if c == b'/' && is_empty s then [] else c ∷ rest

-- A prefix with its slash, unless it is empty.
abbrev pub folder_of : Text → Text
folder_of [] = []
folder_of (c ∷ prefix) = (c ∷ prefix) ++ codes "/"

unfoldable pub names_in : Text → List (Option Text) → List Text
names_in prefix [] = []
names_in prefix (cp ∷ cps) =
    let name = trim_slash_end (trim_prefix prefix (to_string cp)) in
    let rest = names_in prefix cps in if is_empty name then rest else name ∷ rest

abbrev pub size_or_zero : Option ℤ → ℤ
size_or_zero none = pos 0
size_or_zero (some n) = n

-- The files of a page: an object whose key is the prefix itself is passed over.
unfoldable pub files_in : Text → List S3Object → List FileInfo
files_in strip [] = []
files_in strip (obj ∷ objs) =
    let key = trim_prefix strip (to_string obj.key) in
    let rest = files_in strip objs in
    if is_empty key then rest else record { key = key; size = size_or_zero obj.size } ∷ rest

-- `HasMorePages`, after the first page: the token of the next one.
abbrev pub more_pages : Option Text → Option Text
more_pages none = none
more_pages (some []) = none
more_pages (some (c ∷ token)) = some (c ∷ token)

-- `newS3`.
unfoldable pub new_s3 : {W : Type 0} → Sdk W → S3Config → Result S3Dest
new_s3 sdk cfg = elim (sdk.load_config (or_region cfg.region)) [
  | some e ↦ err (codes "load aws config: " ++ e)
  | none ↦ ok (dest_of cfg)
]

module _ {W : Type 0} (sdk : Sdk W) (d : S3Dest) where
  -- `s3Key`.
  unfoldable pub s3_key : Text → Text
  s3_key key = elim d.prefix [ [] ↦ key | c ∷ prefix ↦ (c ∷ prefix) ++ (b'/' ∷ key) ]

  put : Text → Option Text × W → Result ℤ × W
  put body (some e, w) = (err (codes "s3 put object: " ++ e), w)
  put body (none, w) = (ok (pos (length body)), w)

  -- `Write`: nothing is sent of a reader that fails.
  unfoldable pub write : Text → Reader → W → Result ℤ × W
  unfolding put
  write key r w = elim r.failure [
    | some e ↦ (err (codes "read data: " ++ e), w)
    | none ↦ put r.body (sdk.put_object d.bucket (s3_key key) r.body w)
  ]

  -- The prefix of a listing.
  unfoldable pub list_prefix : Text → Text
  list_prefix prefix = folder_of d.prefix ++ folder_of prefix

  names : Text → Result Page × W → Result (List Text) × W
  names prefix (err e, w) = (err (codes "s3 list: " ++ e), w)
  names prefix (ok page, w) = (ok (names_in prefix page.common_prefixes), w)

  -- `List`: the first page.
  unfoldable pub list : Text → W → Result (List Text) × W
  unfolding names
  list prefix w =
      let input : ListInput = record {
        bucket = d.bucket;
        prefix = list_prefix prefix;
        delimiter = some (codes "/");
      } in
      names (list_prefix prefix) (sdk.list_objects_v2 input none w)

  -- The input of a paginator, over all the objects under a prefix.
  abbrev pub all_under : Text → ListInput
  all_under prefix = record { bucket = d.bucket; prefix = prefix; delimiter = none }

  -- One turn of `ListFiles`, with the rest of the loop.
  unfoldable pub files_turn :
      List FileInfo
      → (Option Text → List FileInfo → W → Outcome (List FileInfo) × W)
      → Result Page × W
      → Outcome (List FileInfo) × W
  files_turn files more (err e, w) = (failed (codes "s3 list files: " ++ e), w)
  files_turn files more (ok page, w) =
      let found = files ++ files_in (folder_of d.prefix) page.contents in
      elim (more_pages page.next) [
        | none ↦ (done found, w)
        | some token ↦ more (some token) found w
      ]

  unfoldable pub files_from :
      ℕ → Text → Option Text → List FileInfo → W → Outcome (List FileInfo) × W
  files_from zero prefix token files w = (exhausted, w)
  files_from (suc fuel) prefix token files w =
      files_turn files (files_from fuel prefix) (sdk.list_objects_v2 (all_under prefix) token w)

  -- `ListFiles`, of at most `fuel` pages.
  unfoldable pub list_files : ℕ → Text → W → Outcome (List FileInfo) × W
  list_files fuel prefix w = files_from fuel (list_prefix prefix) none [] w

  -- `Read`.
  got : Result Reader × W → Result Reader × W
  got (err e, w) = (err (codes "s3 get object: " ++ e), w)
  got (ok r, w) = (ok r, w)

  unfoldable pub read : Text → W → Result Reader × W
  unfolding got
  read key w = got (sdk.get_object d.bucket (s3_key key) w)

  -- The objects of a page, in one call; an empty page makes none.
  unfoldable pub delete_page : List S3Object → W → Result (List (Option Text)) × W
  delete_page [] w = (ok [], w)
  delete_page (obj ∷ objs) w = sdk.delete_objects d.bucket (map (λ o. o.key) (obj ∷ objs)) w

  -- The keys that the answer reports are not looked at.
  unfoldable pub after_delete :
      Option Text
      → (Option Text → W → Outcome (Unit {0}) × W)
      → Result (List (Option Text)) × W
      → Outcome (Unit {0}) × W
  after_delete next more (err e, w) = (failed (codes "s3 delete objects: " ++ e), w)
  after_delete next more (ok reported, w) = elim (more_pages next) [
    | none ↦ (done tt, w)
    | some token ↦ more (some token) w
  ]

  unfoldable pub delete_turn :
      (Option Text → W → Outcome (Unit {0}) × W) → Result Page × W → Outcome (Unit {0}) × W
  unfolding after_delete
  delete_turn more (err e, w) = (failed (codes "s3 list for delete: " ++ e), w)
  delete_turn more (ok page, w) = after_delete page.next more (delete_page page.contents w)

  unfoldable pub delete_from : ℕ → Text → Option Text → W → Outcome (Unit {0}) × W
  delete_from zero prefix token w = (exhausted, w)
  delete_from (suc fuel) prefix token w =
      delete_turn (delete_from fuel prefix) (sdk.list_objects_v2 (all_under prefix) token w)

  -- `Delete`, of at most `fuel` pages.
  unfoldable pub delete : ℕ → Text → W → Outcome (Unit {0}) × W
  delete fuel key w = delete_from fuel (s3_key key ++ codes "/") none w

  -- `String`.
  unfoldable pub to_text : Text
  to_text = codes "s3://" ++ (d.bucket ++ (b'/' ∷ d.prefix))
