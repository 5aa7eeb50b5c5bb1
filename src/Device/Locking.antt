-- ===== src/Device/Locking.antt =====
-- The filter accept list and the locked mode against the stored bonds.
use nrf_proxy.Base.{
  ℕ, ◌⊎◌, ◌≡◌, refl, sym, if_true, lt→ltb, ap, ◌∙◌, Bool, true, false, ◌||◌, List, [], ◌∷◌, ◌==◌,
  ltb, arith, if◌then◌else◌, length,
}
use nrf_proxy.Base.Int.{pos, ◌==ℤ◌}
use nrf_proxy.Device.State.{Host, HostCall, Board, Device, log_host}
use nrf_proxy.Device.Link.{accept_bonds, clear_accept_list, refresh_locked_mode}

abbrev pub listed : ℕ → List ℕ → Bool
listed a [] = false
listed a (x ∷ xs) = (a == x) || listed a xs

module _ {Ring : Type 0} (board : Board) (host : Host) where
  -- What a bond leaves in the accept list.
  abbrev added : ℕ → Device Ring → Device Ring
  added addr s =
      let t = log_host (HostCall.accept_add addr (host.accept_add_err s.calls addr)) s in
      if host.accept_add_err s.calls addr ==ℤ pos 0
      then record t { accept_list = addr ∷ t.accept_list }
      else t

  listed-added :
      (a addr : ℕ) (s : Device Ring)
      → listed a (added addr s).accept_list ≡ true
      → ((a == addr) || listed a s.accept_list) ≡ true
  listed-added a addr s h = ground arith

  listed_only :
      (bonds : List ℕ) (a : ℕ) (s : Device Ring)
      → listed a (accept_bonds board host bonds s).accept_list ≡ true
      → (listed a bonds || listed a s.accept_list) ≡ true
  unfolding accept_bonds
  listed_only [] a s h = h
  listed_only (addr ∷ bonds) a s h =
      ground (arith, listed_only bonds a (added addr s) h, listed-added a addr s)

  listed_all :
      (bonds : List ℕ) (a : ℕ) (s : Device Ring)
      → ((t : Device Ring) (addr : ℕ) → (host.accept_add_err t.calls addr ==ℤ pos 0) ≡ true)
      → (listed a bonds || listed a s.accept_list) ≡ true
      → listed a (accept_bonds board host bonds s).accept_list ≡ true
  unfolding accept_bonds
  listed_all [] a s ok h = h
  listed_all (addr ∷ bonds) a s ok h =
      listed_all bonds a (added addr s) ok (ground (arith, ok s addr))

  -- The test for an empty list is redundant.
  if_bonds :
      (bonds : List ℕ) (s : Device Ring)
      → (if ltb 0 (length bonds) then accept_bonds board host bonds s else s)
        ≡ accept_bonds board host bonds s
  if_bonds [] s = unfold accept_bonds in refl
  if_bonds (addr ∷ bonds) s = if_true (ltb 0 (length (addr ∷ bonds))) _ _ (lt→ltb 0 _ (omega arith))

  -- After a refresh the device is locked exactly when a bond is stored; an address on the accept
  -- list has a bond, or was on the list before and the controller refused to clear it; and the list
  -- names every bonded address if the controller takes all of them.
  pub only_bonded :
      (a : ℕ) (s : Device Ring)
      → let t = refresh_locked_mode board host s in
        let bonds = host.bonds s.calls in
        (t.locked_mode ≡ ltb 0 (length bonds))
        × (listed a t.accept_list ≡ true
            → (listed a bonds ≡ true)
              ⊎ ((host.accept_clear_err s.calls ==ℤ pos 0) ≡ false)
                × (listed a s.accept_list ≡ true))
        × (((u : Device Ring) (addr : ℕ) → (host.accept_add_err u.calls addr ==ℤ pos 0) ≡ true)
            → listed a bonds ≡ true
            → listed a t.accept_list ≡ true)
  unfolding refresh_locked_mode
  only_bonded a s = (
    refl,
    (λ h. left_or_bonded (listed_only bonds a cleared (filled ∙ h))),
    (λ ok h. sym filled ∙ listed_all bonds a cleared ok (rw h refl)),
  )
    where
      bonds : List ℕ
      bonds = host.bonds s.calls

      cleared : Device Ring
      cleared = clear_accept_list board host s

      left_or_bonded :
          (listed a bonds || listed a cleared.accept_list) ≡ true
          → (listed a bonds ≡ true)
            ⊎ ((host.accept_clear_err s.calls ==ℤ pos 0) ≡ false) × (listed a s.accept_list ≡ true)
      left_or_bonded h = ground (arith, h)

      filled :
          listed a (accept_bonds board host bonds cleared).accept_list
          ≡ listed a
              (if ltb 0 (length bonds)
                then accept_bonds board host bonds cleared
                else cleared).accept_list
      filled = ap (λ (t : Device Ring). listed a t.accept_list) (sym (if_bonds bonds cleared))
