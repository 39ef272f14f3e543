-- ===== src/Worker/Progress.antt =====
-- backend/cmd/worker/main.go: what ticks may do to an event of the outbox.
use sociomile.Prelude.{
  ℕ, ◌+◌, String, ◌≡◌, inl, inr, refl, sym, ◌∙◌, subst, subst⁻¹, Member, some, none, List, [], ◌∷◌,
  map, ◌==◌, eq_iff, Bool-cases, if◌then◌else◌,
}
use mathlib.Core.Logic.{∥∥₁_map}
use sociomile.Model.{OutboxEvent}
use sociomile.Exec.{ok}
use sociomile.Worker.{Publisher}

-- The broker accepted the event of the outbox `rows` with this identifier.
pub record IsAccepted {W : Type 0} (publish : Publisher W) (rows : List OutboxEvent) (id : String)
    : Type 0 where
  pub event : OutboxEvent
  pub listed : Member event rows
  pub same_id : event.id ≡ id
  pub before : W
  pub later : W
  pub accepted : publish event.routing_key event.payload before ≡ (ok tt, later)

-- What becomes of an event: nothing, or one more failed attempt after which it is as unpublished as
-- before, or it is published, which only a message that the broker accepted does. Its tenant, type,
-- entity, routing key and payload stay.
pub data IsProgress {W : Type 0} (publish : Publisher W) (rows : List OutboxEvent)
    : OutboxEvent → OutboxEvent → Type 0 where
  waited : (e : OutboxEvent) → IsProgress publish rows e e
  failed :
      (e e' : OutboxEvent) (time : ℕ)
      → IsProgress publish rows e e'
      → IsProgress publish rows e (record e' {
        base = record e'.base { updated_at = time };
        failed_at = some time;
        attempts = e'.attempts + 1;
      })
  published :
      (e e' : OutboxEvent) (time : ℕ)
      → IsProgress publish rows e e'
      → ∥ IsAccepted publish rows e'.id ∥₁
      → IsProgress publish rows e (record e' {
        base = record e'.base { updated_at = time };
        published_at = some time;
        failed_at = none;
      })

-- The rows of an outbox, each with what has become of it since the outbox was `start`.
abbrev pub IsAdvanced :
    {W : Type 0} → Publisher W → List OutboxEvent → List OutboxEvent → List OutboxEvent → Type 0
IsAdvanced publish start [] [] = Unit
IsAdvanced publish start [] (y ∷ ys) = ⊥
IsAdvanced publish start (x ∷ xs) [] = ⊥
IsAdvanced publish start (x ∷ xs) (y ∷ ys) =
    IsProgress publish start x y × IsAdvanced publish start xs ys

module _ {W : Type 0} (publish : Publisher W) where
  module _ (start : List OutboxEvent) where
    pub IsAdvanced-refl : (xs : List OutboxEvent) → IsAdvanced publish start xs xs
    IsAdvanced-refl [] = tt
    IsAdvanced-refl (x ∷ xs) = (waited x, IsAdvanced-refl xs)

    -- The update of the rows with one identifier.
    pub IsAdvanced-update :
        (id : String) (f : OutboxEvent → OutboxEvent) (xs ys : List OutboxEvent)
        → ((x y : OutboxEvent)
            → y.id ≡ id
            → IsProgress publish start x y
            → IsProgress publish start x (f y))
        → IsAdvanced publish start xs ys
        → IsAdvanced publish start xs (map (λ r. if r.id == id then f r else r) ys)
    IsAdvanced-update id f [] [] step h = tt
    IsAdvanced-update id f [] (y ∷ ys) step h = elim h [ ]
    IsAdvanced-update id f (x ∷ xs) [] step h = elim h [ ]
    IsAdvanced-update id f (x ∷ xs) (y ∷ ys) step (h, hs) = elim (Bool-cases (y.id == id)) [
      | inl same ↦ rw same (step x y ((eq_iff _ _).0 same) h, IsAdvanced-update id f xs ys step hs)
      | inr other ↦ rw other (h, IsAdvanced-update id f xs ys step hs)
    ]

  -- What the broker is given of an event.
  record IsSameMessage (x y : OutboxEvent) : Type 0 where
    same_id : y.id ≡ x.id
    same_routing_key : y.routing_key ≡ x.routing_key
    same_payload : y.payload ≡ x.payload

  progress-IsSameMessage :
      (start : List OutboxEvent) (x y : OutboxEvent)
      → IsProgress publish start x y
      → IsSameMessage x y
  progress-IsSameMessage start _ _ (waited e) = record {
    same_id = refl;
    same_routing_key = refl;
    same_payload = refl;
  }
  progress-IsSameMessage start _ _ (failed e e' time h) =
      let m = progress-IsSameMessage start e e' h in
      record {
        same_id = m.same_id;
        same_routing_key = m.same_routing_key;
        same_payload = m.same_payload;
      }
  progress-IsSameMessage start _ _ (published e e' time h accepted) =
      let m = progress-IsSameMessage start e e' h in
      record {
        same_id = m.same_id;
        same_routing_key = m.same_routing_key;
        same_payload = m.same_payload;
      }

  advanced_from :
      (start xs ys : List OutboxEvent) (y : OutboxEvent)
      → IsAdvanced publish start xs ys
      → Member y ys
      → (x : OutboxEvent) × Member x xs × IsSameMessage x y
  advanced_from start [] [] y h m = elim m [ ]
  advanced_from start [] (z ∷ ys) y h m = elim h [ ]
  advanced_from start (x ∷ xs) [] y h m = elim m [ ]
  advanced_from start (x ∷ xs) (z ∷ ys) y (h, hs) (inl e) =
      (x, inl refl, subst⁻¹ (IsSameMessage x) e (progress-IsSameMessage start x z h))
  advanced_from start (x ∷ xs) (z ∷ ys) y (h, hs) (inr m) =
      let (x', m', same) = advanced_from start xs ys y hs m in (x', inr m', same)

  module _ (start : List OutboxEvent) where
    -- An event that was accepted later is one of the outbox as it was before.
    IsAccepted-before :
        (ys : List OutboxEvent) (id : String)
        → IsAdvanced publish start start ys
        → IsAccepted publish ys id
        → IsAccepted publish start id
    IsAccepted-before ys id h a =
        let (x, m, same) = advanced_from start start ys a.event h a.listed in
        record {
          event = x;
          listed = m;
          same_id = sym same.same_id ∙ a.same_id;
          before = a.before;
          later = a.later;
          accepted =
              subst (λ k. publish k x.payload a.before ≡ (ok tt, a.later)) same.same_routing_key
                (subst (λ p. publish a.event.routing_key p a.before ≡ (ok tt, a.later))
                  same.same_payload a.accepted);
        }

    module _ (mid : List OutboxEvent) (first : IsAdvanced publish start start mid) where
      IsProgress-trans :
          (x y z : OutboxEvent)
          → IsProgress publish start x y
          → IsProgress publish mid y z
          → IsProgress publish start x z
      IsProgress-trans x y z h (waited e) = h
      IsProgress-trans x y z h (failed e e' time k) = failed x e' time (IsProgress-trans x e e' h k)
      IsProgress-trans x y z h (published e e' time k accepted) =
          published x e' time (IsProgress-trans x e e' h k)
            (∥∥₁_map accepted (IsAccepted-before mid e'.id first))

      progress_all :
          (xs ys zs : List OutboxEvent)
          → IsAdvanced publish start xs ys
          → IsAdvanced publish mid ys zs
          → IsAdvanced publish start xs zs
      progress_all [] [] [] h k = tt
      progress_all [] [] (z ∷ zs) h k = elim k [ ]
      progress_all [] (y ∷ ys) zs h k = elim h [ ]
      progress_all (x ∷ xs) [] zs h k = elim h [ ]
      progress_all (x ∷ xs) (y ∷ ys) [] h k = elim k [ ]
      progress_all (x ∷ xs) (y ∷ ys) (z ∷ zs) (h, hs) (k, ks) =
          (IsProgress-trans x y z h k, progress_all xs ys zs hs ks)

    pub IsAdvanced-trans :
        (ys zs : List OutboxEvent)
        → IsAdvanced publish start start ys
        → IsAdvanced publish ys ys zs
        → IsAdvanced publish start start zs
    IsAdvanced-trans ys zs h k = progress_all ys h start ys zs h k
