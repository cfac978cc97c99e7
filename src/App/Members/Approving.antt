-- ===== src/App/Members/Approving.antt =====
-- What approving a device changes, and what it leaves.
use enbu.Prelude.{Bytes, ◌==◌, false, Option, none, some, List, [], ◌∷◌, ◌≡◌, ◌⊎◌, select}
use enbu.Outcome.{Result, ok, err, refused}
use enbu.Storage.{Store}
use enbu.Signing.{DeviceId}
use enbu.Wsp.{Principal, Control, Protocol}
use enbu.Wsp.Members.{principal}
use enbu.Wsp.Joining.{PendingRequest, request_device, list_join_requests}
use enbu.App.Members.{is_stale, pending_loop}

-- `p` is one of the requests.
abbrev pub Listed : PendingRequest → List PendingRequest → Type 0
Listed p [] = ⊥
Listed p (q ∷ qs) = (q ≡ p) ⊎ Listed p qs

-- The `switch` of `requestFor`.
abbrev only_one : List PendingRequest → Result (Option PendingRequest)
only_one xs = elim xs [
  | [] ↦ ok none
  | p ∷ found ↦ elim found [ [] ↦ ok (some p) | q ∷ more ↦ err refused ]
]

module _ (P : Protocol) (head : Control) where
  -- The request that an approval goes by.
  pub record IsRequested (store : Store) (workspace : Bytes) (device : DeviceId)
      (p : PendingRequest) : Type 0 where
    pub all : List PendingRequest
    pub lists : list_join_requests P store workspace ≡ ok all
    pub listed : Listed p all
    pub fresh : is_stale P head p ≡ false
    pub from_device : request_device P p.request ≡ device
    pub only :
        select
          (λ (q : PendingRequest). request_device P q.request == device)
          (pending_loop P head [] all)
        ≡ p ∷ []

  -- What an approval changes and what it leaves.
  pub record IsApproved (store : Store) (workspace : Bytes) (device : DeviceId) (c c' : Control)
      : Type 0 where
    pub request : PendingRequest
    pub requested : IsRequested store workspace device request
    pub joined :
        principal c device ≡ none
        → principal c' device
          ≡ some (record {
            id = device;
            signing = request.request.signing;
            recipient = request.request.recipient;
            admin = false;
          })
    pub rekeyed :
        (old : Principal)
        → principal c device ≡ some old
        → principal c' device ≡ some (record old { recipient = request.request.recipient })
    pub others : (id : DeviceId) → (id == device) ≡ false → principal c' id ≡ principal c id
