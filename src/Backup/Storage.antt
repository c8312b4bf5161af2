-- ===== src/Backup/Storage.antt =====
-- internal/backup/storage.go: the backup of the files of a Supabase project. The HTTP client and the
-- JSON codec are parameters.
pub mod Complete
pub mod Listing
pub mod Pages
pub mod Run
pub mod Survives
use supaback.Prelude.{
  ℕ, zero, suc, Text, codes, is_empty, List, [], ◌∷◌, ◌++◌, length, map, Bool, true, false, ◌||◌,
  Option, none, some, Result, ok, err, text_eq, ltb, if◌then◌else◌,
}
use supaback.Prelude.Int.{ℤ, pos, int_eq, add_int64}
use supaback.Strconv.{itoa}
use supaback.Config.{SupabaseConfig}
use supaback.Destination.{Destination, Reader}
use supaback.Backup.{Outcome, done, failed, panicked, exhausted}

pub record Request : Type 0 where
  pub method : Text
  pub url : Text
  pub header : List (Text × Text)
  pub body : Text

-- What the client's `Do` returns: an error, or a status and a body.
pub data Reply : Type 0 where
  broken : Text → Reply
  reply : ℤ → Reader → Reply

-- `storageObject`: a folder has no id.
pub record StorageObject : Type 0 where
  pub name : Text
  pub id : Option Text

pub record Bucket : Type 0 where
  pub id : Text
  pub name : Text

pub record ListRequest : Type 0 where
  pub prefix : Text
  pub limit : ℤ
  pub offset : ℤ

-- net/http and encoding/json: which URLs `NewRequest` takes, how a request is answered in a world,
-- and what is marshalled and decoded.
pub record Service (W : Type 0) : Type 0 where
  pub parses : Text → Bool
  pub send : Request → W → Reply × W
  pub marshal : ListRequest → Text
  pub decode_buckets : Reader → Result (List Bucket)
  pub decode_objects : Reader → Result (List StorageObject)

abbrev pub page_size : ℕ
page_size = 100

-- `setHeaders`.
unfoldable pub set_headers : SupabaseConfig → List (Text × Text)
set_headers cfg =
    (codes "Authorization", codes "Bearer " ++ cfg.service_key)
    ∷ (codes "apikey", cfg.service_key)
    ∷ []

-- Where the status is not 200, the error has the body, as far as it can be read.
unfoldable pub checked : Text → Reply → Outcome Reader
checked what (broken e) = failed e
checked what (reply status r) =
    if int_eq status (pos 200)
    then done r
    else failed (what ++ (codes " " ++ (itoa status ++ (codes ": " ++ r.body))))

unfoldable pub decoded : {A : Type 0} → (Reader → Result A) → Outcome Reader → Outcome A
decoded decode (done r) = elim (decode r) [ ok a ↦ done a | err e ↦ failed e ]
decoded decode (failed e) = failed e
decoded decode panicked = panicked
decoded decode exhausted = exhausted

names_of : List Bucket → List Text
names_of [] = []
names_of (b ∷ bs) = b.name ∷ names_of bs

named : Outcome (List Bucket) → Outcome (List Text)
unfolding names_of
named (done bs) = done (names_of bs)
named (failed e) = failed e
named panicked = panicked
named exhausted = exhausted

module _ {W : Type 0} (service : Service W) (cfg : SupabaseConfig) where
  -- `http.NewRequestWithContext`, whose error is dropped, and `Do`: a URL that does not parse gives
  -- no request, and setting the headers of none panics.
  unfoldable pub exchange : Text → Request → W → Outcome Reader × W
  exchange what req w =
      if service.parses req.url
      then (let (r, w') = service.send req w in (checked what r, w'))
      else (panicked, w)

  unfoldable pub get : Text → Text → W → Outcome Reader × W
  get what path w =
      exchange what
        (record {
          method = codes "GET";
          url = cfg.url ++ path;
          header = set_headers cfg;
          body = [];
        })
        w

  -- `listBuckets`.
  unfoldable pub list_buckets : W → Outcome (List Text) × W
  unfolding named
  list_buckets w =
      let (r, w') = get (codes "list buckets") (codes "/storage/v1/bucket") w in
      (named (decoded service.decode_buckets r), w')

  -- One page of a folder.
  unfoldable pub list_page : Text → Text → ℤ → W → Outcome (List StorageObject) × W
  list_page bucket prefix offset w =
      let asked : ListRequest = record {
        prefix = prefix;
        limit = pos page_size;
        offset = offset;
      } in
      let (r, w') =
        exchange (codes "list objects")
          (record {
            method = codes "POST";
            url = cfg.url ++ (codes "/storage/v1/object/list/" ++ bucket);
            header = set_headers cfg ++ ((codes "Content-Type", codes "application/json") ∷ []);
            body = service.marshal asked;
          })
          w in
      (decoded service.decode_objects r, w')
