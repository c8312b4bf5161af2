-- ===== src/Tests/Sessions.antt =====
-- A session with an SFTP server that counts its connections.
use supaback.Prelude.{
  ℕ, suc, codes, [], Bool, true, false, ltb, ◌==◌, ◌&&◌, none, some, ok, refl, arith, if◌then◌else◌,
}
use supaback.Prelude.Int.{pos}
use supaback.Config.{SftpConfig}
use supaback.Disk.{done}
use supaback.Destination.Sftp.{Ssh, Session, client}
use supaback.Destination.Sftp.Connection.{IsSsh, OnlyKept, keeps, client-OnlyKept}

record Host : Type 0 where
  next : ℕ
  marked : ℕ → Bool

abbrev is_open : Host → ℕ → Bool
is_open h k = ltb k h.next && h.marked k

-- No client of it ever answers twice.
abbrev ssh : Ssh Host
ssh = record {
  read_file = λ path w. ok [];
  parse_private_key = λ key. ok key;
  dial = λ addr c w. (
    ok w.next,
    record { next = suc w.next; marked = λ k. if w.next == k then true else w.marked k },
  );
  new_client = λ n w. (ok n, w);
  close_connection = λ n w. record w { marked = λ k. if n == k then false else w.marked k };
  close_client = λ n w. w;
  answers = λ n w. (false, w);
  mkdir_all = λ n path w. (none, w);
  create_file = λ n path w. (none, w);
  copy = λ n path r w. (ok (pos 0), w);
  read_dir = λ n path w. (done [], w);
  walk = λ n path w. ([], w);
  open_file = λ n path w. (ok (record { body = []; failure = none }), w);
  remove = λ n path w. (none, w);
  remove_directory = λ n path w. (none, w);
}

ssh-IsSsh : IsSsh ssh is_open
ssh-IsSsh = record {
  dial-fresh = λ addr c w n h. ground arith;
  dial-open = λ addr c w n k h. ground arith;
  dial-err = λ addr c w e k h. cc;
  close-open = λ n k w. ground arith;
  new_client-open = λ n k w. refl;
  close_client-open = λ n k w. refl;
  answers-open = λ n k w. refl;
}

abbrev cfg : SftpConfig
cfg = record {
  host = codes "h";
  port = pos 22;
  user = codes "u";
  password = codes "p";
  key_path = [];
  remote_path = codes "/b";
}

-- One connection, the client of which is gone.
abbrev session : Session Host
session = record {
  ssh_conn = some 4;
  sftp_client = some 4;
  world = record { next = 5; marked = λ k. 4 == k };
}

session-OnlyKept : OnlyKept is_open session
unfolding OnlyKept keeps
session-OnlyKept k = ground arith

client-OnlyKept_example : OnlyKept is_open (client ssh cfg session).1
client-OnlyKept_example = client-OnlyKept ssh cfg is_open ssh-IsSsh session session-OnlyKept
