-- ===== src/Controller/Requests/Enqueued.antt =====
-- The requests that the work queue gets.
use praetor.Base.{◌≡◌, refl, true, false, ◌||◌, List, [], ◌∷◌, ◌++◌, eq_iff, eq_refl, arith}
use praetor.Controller.Requests.{
  Request, same, has_request, add_request, enqueue_from, enqueue_requests,
}

pub same_refl : (r : Request) → same r r ≡ true
unfolding same
same_refl r = ground (arith, eq_refl r.namespace, eq_refl r.name)

same_sym : (a b : Request) → same a b ≡ same b a
unfolding same
same_sym a b = ground (
  arith,
  eq_iff a.namespace b.namespace,
  eq_iff b.namespace a.namespace,
  eq_iff a.name b.name,
  eq_iff b.name a.name,
)

same_trans : (a b c : Request) → same a b ≡ true → same a c ≡ same b c
unfolding same
same_trans a b c h =
    let n : a.name ≡ b.name = (eq_iff a.name b.name).0 (ground arith) in
    let m : a.namespace ≡ b.namespace = (eq_iff a.namespace b.namespace).0 (ground arith) in
    rw n (rw m refl)

pub has_request-append :
    (r : Request) (ps qs : List Request)
    → has_request r (ps ++ qs) ≡ has_request r ps || has_request r qs
unfolding has_request
has_request-append r [] qs = refl
has_request-append r (p ∷ ps) qs = ground (arith, has_request-append r ps qs)

has_request-same :
    (a b : Request) (ps : List Request) → same a b ≡ true → has_request a ps ≡ has_request b ps
unfolding has_request
has_request-same a b [] h = refl
has_request-same a b (p ∷ ps) h =
    ground (arith, has_request-same a b ps h, same_trans a b p h, same_sym a p, same_sym b p)

pub has_request-add_request :
    (r q : Request) (ps : List Request)
    → has_request r (add_request q ps) ≡ same q r || has_request r ps
unfolding add_request has_request
has_request-add_request r q ps =
    ground (arith, has_request-append r ps (q ∷ []), has_request-same q r ps)

has_request-enqueue_from :
    (r : Request) (reqs queued : List Request)
    → has_request r (enqueue_from reqs queued) ≡ has_request r reqs || has_request r queued
unfolding enqueue_from has_request
has_request-enqueue_from r [] queued = refl
has_request-enqueue_from r (q ∷ reqs) queued = ground (
  arith,
  has_request-enqueue_from r reqs (add_request q queued),
  has_request-add_request r q queued,
)

-- No two requests of the list name one object.
abbrev pub IsDistinct : List Request → Type 0
IsDistinct [] = Unit
IsDistinct (r ∷ reqs) = (has_request r reqs ≡ false) × IsDistinct reqs

append-IsDistinct :
    (reqs : List Request) (r : Request)
    → IsDistinct reqs
    → has_request r reqs ≡ false
    → IsDistinct (reqs ++ r ∷ [])
unfolding has_request
append-IsDistinct [] r d h = (refl, tt)
append-IsDistinct (q ∷ reqs) r d h = (
  ground (arith, has_request-append q reqs (r ∷ []), same_sym q r, d.0),
  append-IsDistinct reqs r d.1 (ground arith),
)

add_request-IsDistinct :
    (r : Request) (reqs : List Request) → IsDistinct reqs → IsDistinct (add_request r reqs)
unfolding add_request
add_request-IsDistinct r reqs d = ground (arith, append-IsDistinct reqs r d)

enqueue_from-IsDistinct :
    (reqs queued : List Request) → IsDistinct queued → IsDistinct (enqueue_from reqs queued)
unfolding enqueue_from
enqueue_from-IsDistinct [] queued d = d
enqueue_from-IsDistinct (r ∷ reqs) queued d =
    enqueue_from-IsDistinct reqs (add_request r queued) (add_request-IsDistinct r queued d)

-- The queue gets the requests that it is handed, and none of them twice.
pub enqueue_requests_lem :
    (reqs : List Request)
    → IsDistinct (enqueue_requests reqs)
      × ((r : Request) → has_request r (enqueue_requests reqs) ≡ has_request r reqs)
unfolding enqueue_requests has_request
enqueue_requests_lem reqs =
    (enqueue_from-IsDistinct reqs [] tt, λ r. ground (arith, has_request-enqueue_from r reqs []))
