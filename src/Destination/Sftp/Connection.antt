-- ===== src/Destination/Sftp/Connection.antt =====
-- Which connections of an SFTP destination are open.
use supaback.Prelude.{
  ℕ, Text, List, Bool, true, false, ◌==◌, Option, none, some, Result, ok, err, ◌≡◌, refl, sym, ap,
  ◌∙◌, arith, if◌then◌else◌,
}
use supaback.Config.{SftpConfig}
use supaback.Destination.Sftp
use supaback.Destination.Sftp.{
  Ssh, Session, Auth, ClientConfig, connect, client, close_old, auth_methods,
}

-- What the SSH library does to the connections: `Dial` opens one that was not open, or none where it
-- fails; `Close` closes one; a client neither opens nor closes any.
pub record IsSsh {W : Type 0} (ssh : Ssh W) (is_open : W → ℕ → Bool) : Type 0 where
  pub dial-fresh :
      (addr : Text) (c : ClientConfig) (w : W) (n : ℕ)
      → (ssh.dial addr c w).0 ≡ ok n
      → is_open w n ≡ false
  pub dial-open :
      (addr : Text) (c : ClientConfig) (w : W) (n k : ℕ)
      → (ssh.dial addr c w).0 ≡ ok n
      → is_open (ssh.dial addr c w).1 k ≡ (if n == k then true else is_open w k)
  pub dial-err :
      (addr : Text) (c : ClientConfig) (w : W) (e : Text) (k : ℕ)
      → (ssh.dial addr c w).0 ≡ err e
      → is_open (ssh.dial addr c w).1 k ≡ is_open w k
  pub close-open :
      (n k : ℕ) (w : W)
      → is_open (ssh.close_connection n w) k ≡ (if n == k then false else is_open w k)
  pub new_client-open : (n k : ℕ) (w : W) → is_open (ssh.new_client n w).1 k ≡ is_open w k
  pub close_client-open : (n k : ℕ) (w : W) → is_open (ssh.close_client n w) k ≡ is_open w k
  pub answers-open : (n k : ℕ) (w : W) → is_open (ssh.answers n w).1 k ≡ is_open w k

unfoldable pub keeps : Option ℕ → ℕ → Bool
keeps none k = false
keeps (some n) k = n == k

module _ {W : Type 0} (is_open : W → ℕ → Bool) where
  -- The open connections are the one that the session keeps, if it keeps one.
  unfoldable pub OnlyKept : Session W → Type 0
  unfolding keeps
  OnlyKept s = (k : ℕ) → is_open s.world k ≡ keeps s.ssh_conn k

module _ {W : Type 0} (ssh : Ssh W) (cfg : SftpConfig) (is_open : W → ℕ → Bool)
    (lawful : IsSsh ssh is_open) where
  closed-open :
      (conn : Option ℕ) (k : ℕ) (w : W)
      → is_open (close_old ssh cfg ssh.close_connection conn w) k
        ≡ (if keeps conn k then false else is_open w k)
  unfolding keeps
  closed-open none k w = refl
  closed-open (some n) k w = lawful.close-open n k w

  client_closed-open :
      (c : Option ℕ) (k : ℕ) (w : W)
      → is_open (close_old ssh cfg ssh.close_client c w) k ≡ is_open w k
  client_closed-open none k w = refl
  client_closed-open (some n) k w = lawful.close_client-open n k w

  module _ (s : Session W) (kept : OnlyKept is_open s) where
    connected-OnlyKept :
        (conn : ℕ) (r : Result ℕ × W)
        → is_open s.world conn ≡ false
        → ((k : ℕ) → is_open r.1 k ≡ (if conn == k then true else is_open s.world k))
        → OnlyKept is_open (Sftp.connected ssh cfg s conn r).1
    unfolding Sftp.connected OnlyKept keeps
    connected-OnlyKept conn (err e, w) f o k =
        ground (arith, lawful.close-open conn k w, o k, kept k)
    connected-OnlyKept conn (ok c, w) f o k =
        closed-open s.ssh_conn k (close_old ssh cfg ssh.close_client s.sftp_client w)
        ∙ (rw (client_closed-open s.sftp_client k w, o k) (ground (arith, kept k, apart)))
      where
        apart : (conn == k) ≡ true → keeps s.ssh_conn k ≡ false
        apart e = sym (kept k) ∙ (ap (is_open s.world) (ground arith) ∙ f)

    -- What a dial leaves, whatever it returned.
    dialled-OnlyKept :
        (port : Text) (r : Result ℕ × W)
        → ((n : ℕ) → r.0 ≡ ok n → is_open s.world n ≡ false)
        → ((n k : ℕ) → r.0 ≡ ok n → is_open r.1 k ≡ (if n == k then true else is_open s.world k))
        → ((e : Text) (k : ℕ) → r.0 ≡ err e → is_open r.1 k ≡ is_open s.world k)
        → OnlyKept is_open (Sftp.dialled ssh cfg s port r).1
    unfolding Sftp.dialled
    dialled-OnlyKept port (err e, w) f o x = unfold OnlyKept in λ k. x e k refl ∙ kept k
    dialled-OnlyKept port (ok n, w) f o x =
        connected-OnlyKept n (ssh.new_client n w) (f n refl)
          (λ k. lawful.new_client-open n k w ∙ o n k refl)

    dial_with-OnlyKept :
        (auths : Result (List Auth)) → OnlyKept is_open (Sftp.dial_with ssh cfg s auths).1
    unfolding Sftp.dial_with
    dial_with-OnlyKept (err e) = kept
    dial_with-OnlyKept (ok auths) =
        dialled-OnlyKept _ _ (λ n q. lawful.dial-fresh _ _ s.world n q)
          (λ n k q. lawful.dial-open _ _ s.world n k q) (λ e k q. lawful.dial-err _ _ s.world e k q)

    connect-OnlyKept : OnlyKept is_open (connect ssh cfg s).1
    unfolding connect
    connect-OnlyKept = dial_with-OnlyKept (auth_methods ssh cfg s.world)

  pinged-OnlyKept :
      (s : Session W) (c : ℕ) (r : Bool × W)
      → OnlyKept is_open (record s { world = r.1 })
      → OnlyKept is_open (Sftp.pinged ssh cfg s c r).1
  unfolding Sftp.pinged
  pinged-OnlyKept s c (true, w) kept = kept
  pinged-OnlyKept s c (false, w) kept = connect-OnlyKept (record s { world = w }) kept

  client_of-OnlyKept :
      (s : Session W) (c : Option ℕ)
      → OnlyKept is_open s
      → OnlyKept is_open (Sftp.client_of ssh cfg s c).1
  unfolding Sftp.client_of
  client_of-OnlyKept s none kept = connect-OnlyKept s kept
  client_of-OnlyKept s (some c) kept =
      pinged-OnlyKept s c (ssh.answers c s.world)
        (unfold OnlyKept in λ k. lawful.answers-open c k s.world ∙ kept k)

  -- Whether a session keeps its client, connects anew or fails to, it leaves open no connection but
  -- the one that it keeps, and that one, where this was so before.
  pub client-OnlyKept : (s : Session W) → OnlyKept is_open s → OnlyKept is_open (client ssh cfg s).1
  unfolding client
  client-OnlyKept s kept = client_of-OnlyKept s s.sftp_client kept
