-- ===== src/Util/Ssh/Held.antt =====
-- What `Forward` and `RemoteForward` of pkg/util/ssh.go hold open. Two counters of the world say, of
-- one handle, how often it was opened and how often it was closed or given to the goroutine that
-- closes it.
pub mod Rounds
pub mod Calls
use k8s_ext_connector.Prelude.{Text, some, none, ℕ, ◌+◌, ◌≡◌, nat_eq, if◌then◌else◌}
use k8s_ext_connector.Exec.{Result, ok, err, Exec}
use k8s_ext_connector.Util.Ssh.{Handle, TcpAddr, Net, Running}

-- Whether a call gave the handle.
abbrev pub is_given : Handle → Result Handle → ℕ
is_given h (ok g) = if nat_eq g h then 1 else 0
is_given h (err e) = 0

module _ {W : Type 0} (net : Net W) (h : Handle) (opened released : W → ℕ) where
  -- A call that opens what it returns, and releases nothing.
  abbrev pub Opens : Exec W Handle → Type 0
  Opens call =
      (w : W)
      → (opened (call w).1 ≡ opened w + is_given h (call w).0) × (released (call w).1 ≡ released w)

  -- The counters count what the calls open, close and hand over.
  pub record IsCounted : Type 0 where
    pub dials : (addr : Text) → Opens (net.ssh_dial addr)
    pub listens : (addr : Text) → Opens (net.listen addr)
    pub listens_there : (cli : Handle) (addr : Text) → Opens (net.ssh_listen cli addr)
    pub accepts : (lnr : Handle) → Opens (net.accept lnr)
    pub connects : (addr : Text) → Opens (net.dial addr)
    pub connects_there :
        (cli : Handle) (laddr raddr : TcpAddr) → Opens (net.dial_tcp cli laddr raddr)
    pub closes :
        (g : Handle) (w : W)
        → (opened (net.close g w) ≡ opened w)
          × (released (net.close g w) ≡ released w + is_given h (ok g))
    pub copies :
        (a b : Handle) (w : W)
        → (opened (net.copy_both a b w) ≡ opened w)
          × (released (net.copy_both a b w) ≡ released w + is_given h (ok a) + is_given h (ok b))
    pub looks :
        (w : W) → (opened (net.is_done w).1 ≡ opened w) × (released (net.is_done w).1 ≡ released w)

  -- From the one world to the other the handle was opened `n` times more than it was released.
  abbrev pub Holds : ℕ → W → W → Type 0
  Holds n w w₁ = opened w₁ + released w ≡ released w₁ + opened w + n

  -- A call that returned holds nothing, and one that still runs holds a client and a listener.
  abbrev pub IsReleased : W → Running net → Type 0
  IsReleased w (some r, w₁) = Holds 0 w w₁
  IsReleased w (none, w₁) =
      (cli lnr : Handle) × Holds (is_given h (ok cli) + is_given h (ok lnr)) w w₁
