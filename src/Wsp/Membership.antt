-- ===== src/Wsp/Membership.antt =====
-- pkg/wsp/chain.go, `MembershipUnbroken`: whether a device was never removed between two Controls. Its
-- memo table only saves work.
pub mod Unbroken
use enbu.Prelude.{
  ℕ, suc, Bytes, ◌==◌, Bool, true, false, not, ◌&&◌, ◌||◌, Option, none, some, List, [], ◌∷◌, ◌++◌,
  length, any, has, keys, is_some, if◌then◌else◌,
}
use enbu.Prelude.Walk.{Look, skip, stop, expand, walk, done, stopped, spent}
use enbu.Prelude.Walk.Total.{remaining}
use enbu.Graph.{Digest}
use enbu.Signing.{DeviceId}
use enbu.Wsp.Members.{Verified, principal}
use enbu.Wsp.Chain.{ControlView, get}

-- `queue = append(queue, ...)`.
unfoldable pub enqueue : List Digest → List Digest → List Digest
enqueue ns queue = queue ++ ns

unfoldable pub parents_in : ControlView → Digest → List Digest
parents_in view d = elim (get view d) [ none ↦ [] | some v ↦ v.control.parents ]

-- Enough rounds for either loop: the first entry, and every parent edge once.
unfoldable pub control_rounds : ControlView → ℕ
control_rounds view = suc (remaining (λ d. length (parents_in view d)) [] (keys view.verified))

-- The first loop: a Control that the view lacks ends it.
unfoldable pub look_older : ControlView → Digest → Look
look_older view d = elim (get view d) [ none ↦ stop | some v ↦ expand v.control.parents ]

-- Whether the loop over the parents of a Control without the device returns false: a parent is
-- missing, or lists the device.
unfoldable pub was_present : ControlView → DeviceId → List Digest → Bool
was_present view id [] = false
was_present view id (p ∷ ps) = elim (get view p) [
  | none ↦ true
  | some parent ↦ is_some (principal parent.control id) || was_present view id ps
]

-- The second loop.
unfoldable pub look_newer : ControlView → DeviceId → List Digest → Digest → Look
unfolding was_present
look_newer view id older d = if has d older then skip else elim (get view d) [
  | none ↦ stop
  | some v ↦
      if not (is_some (principal v.control id)) && was_present view id v.control.parents
      then stop
      else expand v.control.parents
]

unfoldable pub unbroken_since : ControlView → Digest → Digest → DeviceId → List Digest → Bool
unfolding look_newer walk
unbroken_since view head from id older =
    elim (walk (look_newer view id older) enqueue (control_rounds view) [] [] (head ∷ [])) [
      | done seen popped ↦ has from popped
      | stopped ↦ false
      | spent ↦ false
    ]

-- `membershipUnbroken(head, from, id)`.
unfoldable pub membership_unbroken : ControlView → Digest → Digest → DeviceId → Bool
unfolding look_older unbroken_since walk control_rounds parents_in enqueue
membership_unbroken view head from id =
    elim (walk (look_older view) enqueue (control_rounds view) [] [] (from ∷ [])) [
      | done older popped ↦ unbroken_since view head from id older
      | stopped ↦ false
      | spent ↦ false
    ]
