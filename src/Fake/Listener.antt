-- ===== src/Fake/Listener.antt =====
-- The switchable listener of cmd/fakedownstream/main.go, which drills take down and bring up.
use idemio.Prelude.{
  String, Bool, true, false, not, Option, none, some, ◌≡◌, refl, arith, Except, ok, err,
  if◌then◌else◌,
}

pub data ListenerFault : Type 0 where
  not_bound not_closed malformed : ListenerFault

pub record Listener : Type 0 where
  pub addr : String
  pub serving : Bool

-- net.Listen, which gives the address that it took, and Close
pub record Network : Type 0 where
  pub bind : String → Option String
  pub close_fails : Bool

-- newSwitchableListener
unfoldable pub new_listener : Network → String → Except ListenerFault Listener
new_listener n addr = elim (n.bind addr) [
  | none ↦ err not_bound
  | some taken ↦ ok (record { addr = taken; serving = true })
]

abbrev pub Switched : Type 0
Switched = Listener × Except ListenerFault (Unit {0})

-- down
unfoldable pub down : Network → Listener → Switched
down n s =
    if not s.serving
    then (s, ok tt)
    else if n.close_fails
    then (s, err not_closed)
    else (record s { serving = false }, ok tt)

abbrev pub served : Listener → Option String → Switched
served s none = (s, err not_bound)
served s (some taken) = (record s { serving = true }, ok tt)

-- up, on the address that the first bind took
unfoldable pub up : Network → Listener → Switched
up n s = if s.serving then (s, ok tt) else served s (n.bind s.addr)

-- handleListener, of the body's field `up`
unfoldable pub handle_listener : Network → Option Bool → Listener → Switched
unfolding up down
handle_listener n none s = (s, err malformed)
handle_listener n (some true) s = up n s
handle_listener n (some false) s = down n s

served_lem :
    (s : Listener) (o : Option String)
    → ((served s o).0.addr ≡ s.addr) × ((served s o).1 ≡ ok tt → (served s o).0.serving ≡ true)
served_lem s none = (refl, λ h. cc)
served_lem s (some taken) = (refl, λ h. refl)

up_of :
    (s : Listener) (o : Option String) (b : Bool)
    → s.serving ≡ b
    → ((if b then (s, ok tt) else served s o).0.addr ≡ s.addr)
      × ((if b then (s, ok tt) else served s o).1 ≡ ok tt
          → (if b then (s, ok tt) else served s o).0.serving ≡ true)
up_of s o true e = (refl, λ h. e)
up_of s o false e = served_lem s o

-- A request to the listener keeps its address, and serves as it was asked to when it is confirmed.
pub handle_listener_lem :
    (n : Network) (wanted : Bool) (s : Listener)
    → ((handle_listener n (some wanted) s).0.addr ≡ s.addr)
      × ((handle_listener n (some wanted) s).1 ≡ ok tt
          → (handle_listener n (some wanted) s).0.serving ≡ wanted)
unfolding handle_listener
handle_listener_lem n true s = up_of s (n.bind s.addr) s.serving refl
handle_listener_lem n false s = ground arith
