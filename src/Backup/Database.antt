-- ===== src/Backup/Database.antt =====
-- internal/backup/database.go: the dump of a Supabase project's database. The parsing of URLs, the
-- resolver, pg_dump and gzip are parameters.
pub mod Address
pub mod Restore
pub mod Place
use mathlib.Core.List.{reverse}
use supaback.Prelude.{
  ℕ, Text, codes, is_empty, List, [], ◌∷◌, ◌++◌, Bool, true, false, not, ◌&&◌, ◌||◌, ◌==◌, leb,
  Option, none, some, Result, ok, err, if◌then◌else◌,
}
use supaback.Prelude.Int.{ℤ}
use supaback.Strconv.{join, trim_space}
use supaback.Destination.{Destination, Reader}

-- What the code reads of a `url.URL`: "" stands for what is absent.
pub record Url : Type 0 where
  pub hostname : Text
  pub port : Text
  pub user : Text
  pub password : Text
  pub path : Text
  pub sslmode : Text

-- net/url, net and fmt: `url.Parse`, whether `net.ParseIP(a).To4()` is not nil, `LookupHost` in a
-- world, and the verb `%q`.
pub record Network (W : Type 0) : Type 0 where
  pub parse_url : Text → Option Url
  pub is_ipv4 : Text → Bool
  pub lookup_host : Text → W → Result (List Text) × W
  pub quote : Text → Text

-- What pg_dump writes, what it prints as errors, and the error that it ends with.
pub record Dump : Type 0 where
  pub output : Text
  pub stderr : Text
  pub failure : Option Text

-- os/exec and compress/gzip: whether pg_dump is found, what it does with its arguments and with the
-- password of its environment, and what a gzip writer has put out, closed or not.
pub record Tools (W : Type 0) : Type 0 where
  pub look_path : W → Bool
  pub pg_dump : List Text → Text → W → Dump × W
  pub gzip : Text → Bool → Text

-- What `time.Now().UTC().Format` returns, with the layouts `2006-01-02` and `20060102_150405`.
pub record Clock : Type 0 where
  pub date : Text
  pub stamp : Text

-- `strings.ReplaceAll(s, c, by)`, of one byte.
unfoldable pub replace_all : ℕ → Text → Text → Text
replace_all c by [] = []
replace_all c by (x ∷ s) = let rest = replace_all c by s in if x == c then by ++ rest else x ∷ rest

-- `strings.ContainsAny(s, " \\'=")`.
unfoldable pub has_special : Text → Bool
has_special [] = false
has_special (c ∷ s) = c == b' ' || c == 92 || c == 39 || c == b'=' || has_special s

-- `dsnEscape`: 92 is a backslash, 39 a quote.
unfoldable pub dsn_escape : Text → Text
dsn_escape s =
    if has_special s
    then 39 ∷ (replace_all 39 (92 ∷ 39 ∷ []) (replace_all 92 (92 ∷ 92 ∷ []) s) ++ (39 ∷ []))
    else s

-- `strings.TrimPrefix(s, "/")`.
unfoldable pub trim_slash : Text → Text
trim_slash [] = []
trim_slash (c ∷ s) = if c == b'/' then s else c ∷ s

unfoldable pub or_default : Text → Text → Text
or_default [] d = d
or_default (c ∷ s) d = c ∷ s

-- The first of the addresses that is an IPv4 one.
unfoldable pub first_ipv4 : (Text → Bool) → List Text → Option Text
first_ipv4 is_ipv4 [] = none
first_ipv4 is_ipv4 (a ∷ rest) =
    let later = first_ipv4 is_ipv4 rest in if is_ipv4 a then some a else later

-- `parts`, before the address.
unfoldable pub dsn_parts : Url → List Text
dsn_parts u =
    (codes "host=" ++ dsn_escape u.hostname)
    ∷ (codes "port=" ++ or_default u.port (codes "5432"))
    ∷ (codes "dbname=" ++ dsn_escape (or_default (trim_slash u.path) (codes "postgres")))
    ∷ (codes "user=" ++ dsn_escape u.user)
    ∷ (codes "sslmode=" ++ or_default u.sslmode (codes "require"))
    ∷ []

-- An address that is not empty is one more part.
unfoldable pub with_address : Option Text → List Text → List Text
with_address none parts = parts
with_address (some []) parts = parts
with_address (some (c ∷ a)) parts = parts ++ ((codes "hostaddr=" ++ (c ∷ a)) ∷ [])

em_dash : Text
em_dash = 226 ∷ 128 ∷ 148 ∷ []

arrow : Text
arrow = 226 ∷ 134 ∷ 146 ∷ []

pg_dump_missing : Text
unfolding em_dash
pg_dump_missing =
    codes "pg_dump not found in PATH " ++ (em_dash ++ codes " install postgresql-client")

-- The error of `checkIPv4Reachable`.
ipv6_only : Text → Text
unfolding em_dash arrow
ipv6_only quoted =
    codes "database host "
    ++ (quoted
        ++ (codes " resolves to IPv6 only "
            ++ (em_dash
                ++ (codes " Docker containers cannot reach it without IPv6 routing. "
                    ++ (codes "Use the Supabase Session Pooler URL instead: Project Settings "
                        ++ (arrow
                            ++ (codes " Database "
                                ++ (arrow
                                    ++ (codes " Connection Pooling "
                                        ++ (arrow ++ codes " Session mode (port 5432)"))))))))))

module _ {W : Type 0} (net : Network W) where
  -- The addresses of a host, for one that is no IPv4 literal: an error gives none.
  unfoldable pub address_of : Result (List Text) → Option Text
  address_of (ok addrs) = first_ipv4 net.is_ipv4 addrs
  address_of (err e) = none

  unfoldable pub resolve : Text → W → Option Text × W
  unfolding address_of
  resolve host w =
      if net.is_ipv4 host
      then (none, w)
      else (let (addrs, w') = net.lookup_host host w in (address_of addrs, w'))

  -- `buildConnDSN`: the DSN and the password.
  unfoldable pub dsn_of : Text → Option Url → W → (Text × Text) × W
  unfolding resolve
  dsn_of raw none w = ((raw, []), w)
  dsn_of raw (some u) w =
      if is_empty u.hostname
      then ((raw, []), w)
      else (let (address, w') = resolve u.hostname w in
          ((join b' ' (with_address address (dsn_parts u)), u.password), w'))

  unfoldable pub build_conn_dsn : Text → W → (Text × Text) × W
  build_conn_dsn raw w = dsn_of raw (net.parse_url raw) w

  -- `checkIPv4Reachable`: its error, if any.
  unfoldable pub verdict : Text → Result (List Text) → Option Text
  unfolding ipv6_only
  verdict host (err e) = none
  verdict host (ok addrs) = elim (first_ipv4 net.is_ipv4 addrs) [
    | some a ↦ none
    | none ↦ some (ipv6_only (net.quote host))
  ]

  unfoldable pub reachable : Option Url → W → Option Text × W
  unfolding verdict
  reachable none w = (none, w)
  reachable (some u) w =
      if is_empty u.hostname || net.is_ipv4 u.hostname
      then (none, w)
      else (let (addrs, w') = net.lookup_host u.hostname w in (verdict u.hostname addrs, w'))

  unfoldable pub check_ipv4_reachable : Text → W → Option Text × W
  unfolding reachable
  check_ipv4_reachable raw w = reachable (net.parse_url raw) w

-- The arguments of pg_dump.
abbrev pub arguments : Text → List Text
arguments dsn =
    codes "--format=custom" ∷ codes "--no-owner" ∷ codes "--no-privileges" ∷ codes "-d" ∷ dsn ∷ []

-- `cmdErr`, with what pg_dump printed.
unfoldable pub with_stderr : Text → Text → Text
with_stderr e [] = e
with_stderr e (c ∷ msg) = e ++ (codes ": " ++ (c ∷ msg))

unfoldable pub cmd_err : Dump → Option Text
cmd_err d = elim d.failure [ none ↦ none | some e ↦ some (with_stderr e (trim_space d.stderr)) ]

abbrev is_none : Option Text → Bool
is_none none = true
is_none (some e) = false

-- What the destination reads: the pipe from pg_dump, through gzip if the backup is compressed. The
-- error of pg_dump ends either; the gzip writer is closed only where there is none.
unfoldable pub stream : (Text → Bool → Text) → Bool → Dump → Reader
stream gzip compress d = record {
  body = if compress then gzip d.output (is_none (cmd_err d)) else d.output;
  failure = cmd_err d;
}

unfoldable pub key_of : Clock → Bool → Text
key_of clock compress =
    clock.date
    ++ (codes "/database/postgres_"
        ++ (clock.stamp ++ (codes ".dump" ++ (if compress then codes ".gz" else []))))

module _ {W : Type 0} (net : Network W) (tools : Tools W) (dest : Destination W) where
  -- After the write: its error, or that of pg_dump.
  unfoldable pub outcome : Option Text → Result ℤ → Result ℤ
  outcome failure (err e) = err (codes "write database backup: " ++ e)
  outcome (some e) (ok n) = err (codes "pg_dump failed: " ++ e)
  outcome none (ok n) = ok n

  unfoldable pub dumped : Text → Bool → Dump × W → Result ℤ × W
  dumped key compress (d, w) =
      let (n, w') = dest.write key (stream tools.gzip compress d) w in (outcome (cmd_err d) n, w')

  unfoldable pub dump : Text → Bool → (Text × Text) × W → Result ℤ × W
  dump key compress ((dsn, password), w) =
      dumped key compress (tools.pg_dump (arguments dsn) password w)

  unfoldable pub dump_if : Text → Text → Bool → Option Text × W → Result ℤ × W
  dump_if raw key compress (some e, w) = (err e, w)
  dump_if raw key compress (none, w) = dump key compress (build_conn_dsn net raw w)

  -- `Run`.
  unfoldable pub run : Clock → Text → Bool → W → Result ℤ × W
  unfolding pg_dump_missing
  run clock raw compress w =
      if tools.look_path w
      then dump_if raw (key_of clock compress) compress (check_ipv4_reachable net raw w)
      else (err pg_dump_missing, w)
