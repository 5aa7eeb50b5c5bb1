-- ===== src/Device/Lifecycle.antt =====
-- What a phone can observe of the device, as a small machine: who is on the link, and the relay.
pub mod Refine
use nrf_proxy.Base.{◌≡◌, refl, ◌⊎◌, inl, inr, Bool, true, false, if◌then◌else◌}
use nrf_proxy.Device.State.{Device}

-- Nobody can connect, anyone can, a phone is on the link, the owner is on an encrypted link.
pub data Mode : Type 0 where
  silent advertising joined owned : Mode

-- How the link may pass on: only a link that is up becomes encrypted, an encrypted link only ends,
-- and after a link the device is silent first.
pub data Passes : Mode → Mode → Type 0 where
  rests : (m : Mode) → Passes m m
  starts : Passes Mode.silent Mode.advertising
  stops : Passes Mode.advertising Mode.silent
  joins : Passes Mode.advertising Mode.joined
  joins_late : Passes Mode.silent Mode.joined
  secures : Passes Mode.joined Mode.owned
  leaves : Passes Mode.joined Mode.silent
  owner_leaves : Passes Mode.owned Mode.silent

-- How the relay may change: it can always be cut, and is switched on only with the owner there
-- before and after.
pub data Switches : Mode → Mode → Bool → Bool → Type 0 where
  keeps : (m n : Mode) (r : Bool) → Switches m n r r
  cuts : (m n : Mode) → Switches m n true false
  turns_on : Switches Mode.owned Mode.owned false true

pub record Abstract : Type 0 where
  pub mode : Mode
  pub relay : Bool

pub record Move (a b : Abstract) : Type 0 where
  pub passes : Passes a.mode b.mode
  pub switches : Switches a.mode b.mode a.relay b.relay

abbrev pub mode_of : Bool → Bool → Bool → Mode
mode_of conn secure adv =
    if conn
    then if secure then Mode.owned else Mode.joined
    else if adv
    then Mode.advertising
    else Mode.silent

-- What is observed of a state of the device.
abbrev pub observed : {Ring : Type 0} → Device Ring → Abstract
observed s = record {
  mode = mode_of s.current_conn s.link_secure s.adv_active;
  relay = s.relay_pin;
}

-- `Passes` as a test.
abbrev pub allowed : Mode → Mode → Bool
allowed Mode.silent Mode.owned = false
allowed Mode.silent _ = true
allowed Mode.advertising Mode.owned = false
allowed Mode.advertising _ = true
allowed Mode.joined Mode.advertising = false
allowed Mode.joined _ = true
allowed Mode.owned Mode.silent = true
allowed Mode.owned Mode.owned = true
allowed Mode.owned _ = false

allowed-Passes : (m n : Mode) → allowed m n ≡ true → Passes m n
allowed-Passes Mode.silent Mode.silent h = rests Mode.silent
allowed-Passes Mode.silent Mode.advertising h = starts
allowed-Passes Mode.silent Mode.joined h = joins_late
allowed-Passes Mode.silent Mode.owned h = absurd (cc)
allowed-Passes Mode.advertising Mode.silent h = stops
allowed-Passes Mode.advertising Mode.advertising h = rests Mode.advertising
allowed-Passes Mode.advertising Mode.joined h = joins
allowed-Passes Mode.advertising Mode.owned h = absurd (cc)
allowed-Passes Mode.joined Mode.silent h = leaves
allowed-Passes Mode.joined Mode.advertising h = absurd (cc)
allowed-Passes Mode.joined Mode.joined h = rests Mode.joined
allowed-Passes Mode.joined Mode.owned h = secures
allowed-Passes Mode.owned Mode.silent h = owner_leaves
allowed-Passes Mode.owned Mode.advertising h = absurd (cc)
allowed-Passes Mode.owned Mode.joined h = absurd (cc)
allowed-Passes Mode.owned Mode.owned h = rests Mode.owned

allowed-Switches :
    (m n : Mode) (r r' : Bool)
    → (r' ≡ true → (r ≡ true) ⊎ (m ≡ Mode.owned) × (n ≡ Mode.owned))
    → Switches m n r r'
allowed-Switches m n true true h = keeps m n true
allowed-Switches m n true false h = cuts m n
allowed-Switches m n false false h = keeps m n false
allowed-Switches m n false true h = elim (h refl) [
  | inl on ↦ absurd (cc on)
  | inr (e, f) ↦ rw (e, f) turns_on
]

-- What makes a step a move, in a form that the tactics prove.
abbrev pub MayMove : {Ring : Type 0} → Device Ring → Device Ring → Type 0
MayMove s t =
    (allowed (observed s).mode (observed t).mode ≡ true)
    × (t.relay_pin ≡ true
        → (s.relay_pin ≡ true)
          ⊎ ((observed s).mode ≡ Mode.owned) × ((observed t).mode ≡ Mode.owned))

pub MayMove-Move :
    {Ring : Type 0} (s t : Device Ring) → MayMove s t → Move (observed s) (observed t)
MayMove-Move s t (passes, switches) = record {
  passes = allowed-Passes _ _ passes;
  switches = allowed-Switches _ _ _ _ switches;
}
