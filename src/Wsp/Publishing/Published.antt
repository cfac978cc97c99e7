-- ===== src/Wsp/Publishing/Published.antt =====
-- What an update of the Control publishes, and when it counts as settled.
use enbu.Prelude.{true, false, List, [], ◌∷◌, ◌≡◌, inl, inr, All, is_some}
use enbu.Outcome.{Result, ok, Result-cases}
use enbu.Storage.{Object}
use enbu.Wsp.{Control, Protocol, Signer}
use enbu.Wsp.Members.{Verified, sign_control, verify_child}
use enbu.Wsp.Members.Child.{IsChild, verify_child-IsChild}
use enbu.Wsp.Chain.{ControlView, get, is_forked, head, load_control}
use enbu.Wsp.Publishing.{
  Location, control_object, publish_then, publish_child, successor, update_control,
}

module _ (P : Protocol) (at : Location) (view : ControlView) where
  -- The object is a Control, signed by `signer`, that `parents` authorize.
  pub record IsVetted (parents : List Verified) (signer : Signer) (o : Object) : Type 0 where
    pub next : Control
    pub signs : sign_control P next signer ≡ ok o.head
    pub v : Verified
    pub accepted : verify_child P parents o.head ≡ ok v
    pub authorized : IsChild P parents o.head v

  -- The object is such a Control under the only head of the view.
  pub record IsNext (signer : Signer) (o : Object) : Type 0 where
    pub parent : Verified
    pub is_head : head view ≡ ok parent
    pub vetted : IsVetted (parent ∷ []) signer o

  -- A load after the publication shows `v`, and no competing Control.
  pub record IsSettled (v : Verified) : Type 0 where
    pub after : ControlView
    pub loads : load_control P at.after view.workspace view.genesis (v.digest ∷ []) ≡ ok after
    pub holds_it : is_some (get after v.digest) ≡ true
    pub single : is_forked after ≡ false

  -- An update to `v` that succeeded: the Control that the caller asked for, on top of the only head, was
  -- signed, verified as `v`, and published as the only object, and a load after it is settled.
  pub record IsUpdated (signer : Signer) (mutate : Control → Result Control) (os : List Object)
      (v : Verified) : Type 0 where
    pub parent : Verified
    pub is_head : head view ≡ ok parent
    pub next : Control
    pub asked_for : successor P at parent signer mutate ≡ ok next
    pub object : Object
    pub signs : sign_control P next signer ≡ ok object.head
    pub accepted : verify_child P (parent ∷ []) object.head ≡ ok v
    pub authorized : IsChild P (parent ∷ []) object.head v
    pub only_object : os ≡ object ∷ []
    pub was_published : at.publish object ≡ ok tt
    pub settled : IsSettled v

  publish_child-IsVetted :
      (parents : List Verified) (next : Control) (signer : Signer)
      → All (IsVetted parents signer) (publish_child P at view parents next signer).1
  unfolding publish_child publish_then control_object
  publish_child-IsVetted parents next signer = elim (Result-cases (sign_control P next signer)) [
    | inl (e, q) ↦ rw (q, publish_child) tt
    | inr (blob, q) ↦ elim (Result-cases (verify_child P parents blob)) [
      | inl (e, w) ↦ rw (q, w, publish_child) tt
      | inr (v, w) ↦
          rw (q, w, publish_child)
            (
              record {
                next = next;
                signs = q;
                v = v;
                accepted = w;
                authorized = verify_child-IsChild P parents blob v w;
              },
              tt,
            )
    ]
  ]

  -- `UpdateControl` publishes nothing but Controls that its signer signed and that the only head of
  -- the view authorizes.
  pub update_control-IsNext :
      (signer : Signer) (mutate : Control → Result Control)
      → All (IsNext signer) (update_control P at view signer mutate).1
  unfolding update_control
  update_control-IsNext signer mutate = elim (Result-cases (head view)) [
    | inl (e, q) ↦ rw (q, update_control) tt
    | inr (h, q) ↦ elim (Result-cases (successor P at h signer mutate)) [
      | inl (e, w) ↦ rw (q, w, update_control) tt
      | inr (next, w) ↦
          rw (q, w, update_control)
            (all_next h q (publish_child P at view (h ∷ []) next signer).1
              (publish_child-IsVetted (h ∷ []) next signer))
    ]
  ]
    where
      all_next :
          (h : Verified)
          → head view ≡ ok h
          → (os : List Object) → All (IsVetted (h ∷ []) signer) os
          → All (IsNext signer) os
      all_next h q [] a = tt
      all_next h q (o ∷ os) a =
          (record { parent = h; is_head = q; vetted = a.0 }, all_next h q os a.1)
