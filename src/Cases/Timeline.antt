-- ===== src/Cases/Timeline.antt =====
-- How a timeline grows: its events stay, but for redaction, and new ones are appended.
use orvo_agent.Base.{
  String, ℕ, Option, List, [], ◌∷◌, ◌++◌, ◌≡◌, refl, sym, ap, ◌∙◌, Pointwise, map, append_nil,
  append_assoc, subst,
}
use orvo_agent.Redaction.Redactor.{Redactor}
use orvo_agent.Cases.Status.{EventType, ActorType}
use orvo_agent.Cases.Record.{Event}
use orvo_agent.Cases.Same.{SameEvent}

-- What nothing changes of an event, not even redaction.
abbrev pub Skeleton : Type 0
Skeleton = String × EventType × ActorType × Option String × Option String × ℕ

abbrev pub skeleton : Event → Skeleton
skeleton e = (e.event_id, e.event_type, e.actor_type, e.run_id, e.case_id, e.created_at)

-- The event is the same, with its texts and metadata redacted any number of times.
pub data Redacted (R : Redactor) (e : Event) : Event → Type 0 where
  as_it_was : Redacted R e e
  once_more : (m : Event) {e' : Event} → Redacted R e m → SameEvent R m e' → Redacted R e e'

Redacted-trans : (R : Redactor) (d e f : Event) → Redacted R d e → Redacted R e f → Redacted R d f
Redacted-trans R d e _ h as_it_was = h
Redacted-trans R d e f h (once_more m k s) = once_more m (Redacted-trans R d e m h k) s

pub skeleton-SameEvent : (R : Redactor) (e e' : Event) → SameEvent R e e' → skeleton e' ≡ skeleton e
skeleton-SameEvent R e e' s =
    let a = s.event_id in
    let b = s.event_type in
    let c = s.actor_type in let d = s.run_id in let f = s.case_id in let g = s.created_at in cc

skeleton-Redacted : (R : Redactor) (e e' : Event) → Redacted R e e' → skeleton e' ≡ skeleton e
skeleton-Redacted R e _ as_it_was = refl
skeleton-Redacted R e e' (once_more m k s) = skeleton-SameEvent R m e' s ∙ skeleton-Redacted R e m k

-- The events stay in place, redacted any number of times, and as many follow as `added` describes.
abbrev pub Grows : Redactor → List Event → List Event → List Skeleton → Type 0
Grows R es es' added =
    (front : List Event) × (new : List Event) × (es' ≡ front ++ new)
    × Pointwise (Redacted R) es front
    × (map skeleton new ≡ added)

Pointwise-Redacted-refl : (R : Redactor) (es : List Event) → Pointwise (Redacted R) es es
Pointwise-Redacted-refl R [] = tt
Pointwise-Redacted-refl R (e ∷ es) = (as_it_was, Pointwise-Redacted-refl R es)

Pointwise-Redacted-trans :
    (R : Redactor) (es fs gs : List Event)
    → Pointwise (Redacted R) es fs
    → Pointwise (Redacted R) fs gs
    → Pointwise (Redacted R) es gs
Pointwise-Redacted-trans R [] [] gs h k = k
Pointwise-Redacted-trans R [] (f ∷ fs) gs h k = elim h [ ]
Pointwise-Redacted-trans R (e ∷ es) [] gs h k = elim h [ ]
Pointwise-Redacted-trans R (e ∷ es) (f ∷ fs) [] h k = elim k [ ]
Pointwise-Redacted-trans R (e ∷ es) (f ∷ fs) (g ∷ gs) h k =
    (Redacted-trans R e f g h.0 k.0, Pointwise-Redacted-trans R es fs gs h.1 k.1)

-- What corresponds to two lists, one after the other, is what corresponds to each.
Pointwise-split :
    (R : Redactor) (xs ys zs : List Event)
    → Pointwise (Redacted R) (xs ++ ys) zs
    → (front : List Event) × (back : List Event) × (zs ≡ front ++ back)
      × Pointwise (Redacted R) xs front
      × Pointwise (Redacted R) ys back
Pointwise-split R [] ys zs h = ([], zs, refl, tt, h)
Pointwise-split R (x ∷ xs) ys [] h = elim h [ ]
Pointwise-split R (x ∷ xs) ys (z ∷ zs) h =
    let (front, back, e, p, q) = Pointwise-split R xs ys zs h.1 in
    (z ∷ front, back, ap (◌∷◌ z) e, (h.0, p), q)

skeletons-Redacted :
    (R : Redactor) (es fs : List Event)
    → Pointwise (Redacted R) es fs
    → map skeleton fs ≡ map skeleton es
skeletons-Redacted R [] [] h = refl
skeletons-Redacted R [] (f ∷ fs) h = elim h [ ]
skeletons-Redacted R (e ∷ es) [] h = elim h [ ]
skeletons-Redacted R (e ∷ es) (f ∷ fs) h =
    let a = skeleton-Redacted R e f h.0 in
    let b = skeletons-Redacted R es fs h.1 in
    ap (λ x. x ∷ map skeleton fs) a ∙ ap (◌∷◌ (skeleton e)) b

map-append-skeleton :
    (es fs : List Event) → map skeleton (es ++ fs) ≡ map skeleton es ++ map skeleton fs
map-append-skeleton [] fs = refl
map-append-skeleton (e ∷ es) fs = ap (◌∷◌ (skeleton e)) (map-append-skeleton es fs)

pub Grows-refl : (R : Redactor) (es : List Event) → Grows R es es []
Grows-refl R es = (es, [], sym (append_nil es), Pointwise-Redacted-refl R es, refl)

pub Grows-trans :
    (R : Redactor) (es fs gs : List Event) (xs ys : List Skeleton)
    → Grows R es fs xs
    → Grows R fs gs ys
    → Grows R es gs (xs ++ ys)
Grows-trans R es fs gs xs ys (front, new, e, p, q) (front', new', e', p', q') =
    let (a, b, f, s, t) =
      Pointwise-split R front new front' (subst (λ z. Pointwise (Redacted R) z front') e p') in
    (
      a,
      b ++ new',
      e' ∙ ap (λ z. z ++ new') f ∙ append_assoc a b new',
      Pointwise-Redacted-trans R es front a p s,
      map-append-skeleton b new'
          ∙ ap (λ z. z ++ map skeleton new') (skeletons-Redacted R new b t ∙ q)
          ∙ ap (◌++◌ xs) q',
    )

Pointwise-SameEvent :
    (R : Redactor) (es fs : List Event)
    → Pointwise (SameEvent R) es fs
    → Pointwise (Redacted R) es fs
Pointwise-SameEvent R [] [] h = tt
Pointwise-SameEvent R [] (f ∷ fs) h = elim h [ ]
Pointwise-SameEvent R (e ∷ es) [] h = elim h [ ]
Pointwise-SameEvent R (e ∷ es) (f ∷ fs) h =
    (once_more e as_it_was h.0, Pointwise-SameEvent R es fs h.1)

-- Validation of a timeline with one event more.
pub Grows-of_SameEvent :
    (R : Redactor) (es fs gs : List Event) (e : Event)
    → fs ≡ es ++ (e ∷ [])
    → Pointwise (SameEvent R) fs gs
    → Grows R es gs (skeleton e ∷ [])
Grows-of_SameEvent R es fs gs e k p =
    let (front, new, f, s, t) =
      Pointwise-split R es (e ∷ []) gs
        (subst (λ z. Pointwise (Redacted R) z gs) k (Pointwise-SameEvent R fs gs p)) in
    (front, new, f, s, skeletons-Redacted R (e ∷ []) new t)
