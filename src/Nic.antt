-- ===== src/Nic.antt =====
-- Whether a network interface is up: src/internal/nic.cpp. The system calls are a parameter.
use Prim.Native.String.{String}
use duatic_ethercat_interfac.Prelude.{
  ℕ, ◌≡◌, refl, Bool, true, false, ◌||◌, ◌==◌, ◌⊎◌, inl, inr, leb, if◌then◌else◌, Bool-cases,
}
use duatic_ethercat_interfac.Prelude.Int.{ℤ, pos, ltb_ℤ, eqb_ℤ}

-- `ioctl` is the call with SIOCGIFFLAGS for the interface: an error code, and whether the flags that it
-- stores have IFF_UP.
pub record Sockets (W : Type 0) : Type 0 where
  pub ifnamsiz : ℕ
  pub size : String → ℕ
  pub socket : W → ℤ × W
  pub ioctl : ℤ → String → W → ℤ × (Bool × W)
  pub close : ℤ → W → W

module _ {W : Type 0} (os : Sockets W) where
  unfoldable pub is_up : String → W → Bool × W
  is_up interface_name w =
      let (fd, w1) = os.socket w in
      let (ec, (flag, w2)) = os.ioctl fd interface_name w1 in
      if os.size interface_name == 0 || leb os.ifnamsiz (os.size interface_name)
      then (false, w)
      else if ltb_ℤ fd (pos 0)
      then (false, w1)
      else ((if eqb_ℤ ec (pos 0) then flag else false), os.close fd w2)

  -- A socket is either not opened, or it is closed again by the last call, whatever `ioctl` says.
  is_up-closes :
      (interface_name : String) (w : W)
      → ((is_up interface_name w) ≡ (false, w))
        ⊎ (((ltb_ℤ (os.socket w).0 (pos 0) ≡ true) × ((is_up interface_name w).0 ≡ false))
            ⊎ ((w' : W) × ((is_up interface_name w).1 ≡ os.close (os.socket w).0 w')))
  unfolding is_up
  is_up-closes interface_name w =
      elim (Bool-cases (os.size interface_name == 0 || leb os.ifnamsiz (os.size interface_name))) [
        | inl s ↦ rw s (inl refl)
        | inr s ↦ elim (Bool-cases (ltb_ℤ (os.socket w).0 (pos 0))) [
          | inl f ↦ rw (s, f) (inr (inl (refl, refl)))
          | inr f ↦ rw (s, f) (inr (inr (_, refl)))
        ]
      ]
