-- ===== src/Cache/Rules.antt =====
-- The cache changes no table.
use Prim.Native.String
use sociomile.Apperror.{Error}
use sociomile.Prelude.{
  ap, subst, subst⁻¹, [], ◌∷◌, ◌≢◌, ℤ, pos, Option, ℕ, String, ◌≡◌, refl, none, some,
}
use sociomile.Exec.{Result, ok, err, State, Exec, pure, fail, ◌>>=◌, outside}
use sociomile.Exec.Ends.{Ends, ends_seq, ends_pure, ends_fail, ends_catch, ends_weaken}
use sociomile.Gorm.Session.Rules.{Reads, reads_seq, outside_reads}
use sociomile.Gorm.Laws.{beside}
use sociomile.Redis.{Redis, Reply, value, nil, failed, Codec}
use sociomile.Cache.Keys.{behind, key_lem}
use sociomile.Cache.{
  Client, reply, ignore_error, version_key, lift_result, get_json, set_json, version, bump_version,
}
use sociomile.Exec.Results.{ok_injective}

module _ {W A : Type 0} (s : State W) where
  pub outside_keeps : (f : W → Result A × W) → Reads (outside f) s (λ a. Unit) (λ e. Unit)
  outside_keeps f = outside_reads f s (λ a w e. tt) (λ e w x. tt)

module _ {W : Type 0} (s : State W) where
  -- It returns nothing, and no error either.
  pub bump_version_reads :
      (cache : Client W) (tenant_id resource : String)
      → Reads (bump_version cache tenant_id resource) s (λ u. Unit) (λ e. ⊥)
  unfolding bump_version
  bump_version_reads none tenant_id resource = record { reads = ends_pure tt (refl, tt) }
  bump_version_reads (some redis) tenant_id resource = record {
    reads =
        ends_catch _ _ {P = λ u s'. (s'.db ≡ s.db) × Unit {0}}
          {F = λ e s'. (s'.db ≡ s.db) × Unit {0}}
          (reads_seq _ _ (outside_keeps s _) (λ a w u. ends_pure tt (refl, tt))
            (λ e w u. (refl, tt)))
          (λ u s' p. p) (λ e s' p. ends_pure tt p);
  }

-- Encoding a value, which touches nothing.
lift_reads :
    {W A : Type 0} (s : State W) (r : Result A) → Reads (lift_result r) s (λ a. Unit) (λ e. Unit)
unfolding pure fail
lift_reads s (ok a) = record { reads = ends_pure a (refl, tt) }
lift_reads s (err e) = record { reads = ends_fail e (refl, tt) }

pub set_json_reads :
    {W A : Type 0} (s : State W) (cache : Client W) (codec : Codec A) (k : String) (a : A) (ttl : ℕ)
    → Reads (set_json cache codec k a ttl) s (λ u. Unit) (λ e. Unit)
unfolding set_json
set_json_reads s none codec k a ttl = record { reads = ends_pure tt (refl, tt) }
set_json_reads s (some redis) codec k a ttl = record {
  reads =
      reads_seq _ _ (lift_reads s (codec.marshal a))
        (λ payload w u. (outside_keeps (beside s w) (redis.set k payload ttl)).reads)
        (λ e w u. (refl, tt));
}

-- What a read of the cache finds: a text that decodes to the value.
abbrev pub IsHit : {W A : Type 0} → Client W → Codec A → String → A → Type 0
IsHit none codec k a = ⊥
IsHit {W} (some redis) codec k a =
    (text : String) × (w : W) × (w' : W) × (redis.get k w ≡ (value text, w'))
    × (codec.unmarshal text ≡ ok a)

abbrev pub IsHitOption : {W A : Type 0} → Client W → Codec A → String → Option A → Type 0
IsHitOption cache codec k none = Unit
IsHitOption cache codec k (some a) = IsHit cache codec k a

decode_reads :
    {W A : Type 0} (s : State W) (r : Result A)
    → Reads (lift_result r) s (λ a. r ≡ ok a) (λ e. Unit)
unfolding pure fail
decode_reads s (ok a) = record { reads = ends_pure a (refl, refl) }
decode_reads s (err e) = record { reads = ends_fail e (refl, tt) }

module _ {W A : Type 0} (s : State W) (redis : Redis W) (codec : Codec A) (k : String) where
  answered_reads :
      (answer : Reply String) (w : W) (w' : W)
      → redis.get k w ≡ (answer, w')
      → Reads
          (reply
            (λ text. lift_result (codec.unmarshal text) >>= λ a. pure (some a))
            (pure none)
            fail
            answer)
          s
          (IsHitOption (some redis) codec k)
          (λ e. Unit)
  answered_reads (value text) w w' e = record {
    reads =
        reads_seq _ _ (decode_reads s (codec.unmarshal text))
          (λ a t same. ends_pure _ (refl, (text, w, w', e, same))) (λ x t u. (refl, tt));
  }
  answered_reads nil w w' e = record { reads = ends_pure none (refl, tt) }
  answered_reads (failed x) w w' e = record { reads = ends_fail x (refl, tt) }

ok_not_err : {A : Type 0} (a : A) (e : Error) → ok a ≢ err e
ok_not_err a e h = cc

same_pair :
    {A W : Type 0} (p : A × W) (a : A) (w : W)
    → ◌≡◌ {A = Result A × W} (ok p.0, p.1) (ok a, w)
    → p ≡ (a, w)
same_pair p a w e = λ i. (ok_injective p.0 a (ap (λ x. x.0) e) i, (e i).1)

pub get_json_reads :
    {W A : Type 0} (s : State W) (cache : Client W) (codec : Codec A) (k : String)
    → Reads (get_json cache codec k) s (IsHitOption cache codec k) (λ e. Unit)
unfolding get_json
get_json_reads s none codec k = record { reads = ends_pure none (refl, tt) }
get_json_reads s (some redis) codec k = record {
  reads =
      reads_seq _ _
        (outside_reads (λ w. (ok (redis.get k w).0, (redis.get k w).1)) s
          {P = λ answer. (w' : _) × (redis.get k s.world ≡ (answer, w'))} {F = λ e. ⊥}
          (λ answer w e. (w, same_pair (redis.get k s.world) answer w e))
          (λ x w e. ok_not_err _ x (ap (λ p. p.0) e)))
        (λ answer w got.
          (answered_reads (beside s w) redis codec k answer s.world got.0 got.1).reads)
        (λ e w x. absurd x);
}

-- The version that an answer of Redis stands for: 1 if there is none, or Redis fails.
abbrev pub Stands : Reply ℤ → ℤ → Type 0
Stands (value n) v = v ≡ n
Stands nil v = v ≡ pos 1
Stands (failed e) v = v ≡ pos 1

-- The key of the counter of a tenant's lists.
abbrev pub counter_of : String → String → String
counter_of tenant_id resource =
    String.◌++◌ "sociomile" (behind ("tenant" ∷ tenant_id ∷ resource ∷ "version" ∷ []))

pub counter_of_lem :
    (tenant_id resource : String) → version_key tenant_id resource ≡ counter_of tenant_id resource
counter_of_lem tenant_id resource = key_lem _ _

-- The version of the lists of a tenant in a world.
abbrev pub IsVersion : {W : Type 0} → Client W → String → String → W → ℤ → Type 0
IsVersion none tenant_id resource w v = v ≡ pos 1
IsVersion (some redis) tenant_id resource w v =
    Stands (redis.get_int64 (counter_of tenant_id resource) w).0 v

-- It returns a number, whatever Redis does.
pub version_reads :
    {W : Type 0} (s : State W) (cache : Client W) (tenant_id resource : String)
    → Reads
        (version cache tenant_id resource)
        s
        (IsVersion cache tenant_id resource s.world)
        (λ e. ⊥)
unfolding version
version_reads s none tenant_id resource = record { reads = ends_pure _ (refl, refl) }
version_reads {W} s (some redis) tenant_id resource = record {
  reads =
      reads_seq _ _
        (outside_reads
          (λ w. (
            ok (redis.get_int64 (version_key tenant_id resource) w).0,
            (redis.get_int64 (version_key tenant_id resource) w).1,
          ))
          s {P = λ answer. (redis.get_int64 (version_key tenant_id resource) s.world).0 ≡ answer}
          {F = λ e. ⊥}
          (λ answer w e.
            ok_injective (redis.get_int64 (version_key tenant_id resource) s.world).0 answer
              (ap (λ x. x.0) e))
          (λ x w e. ok_not_err _ x (ap (λ p. p.0) e)))
        (λ answer w got.
          ends_weaken _ (counted answer w).reads
            (λ v s' h. (
              h.0,
              subst (λ k. Stands (redis.get_int64 k s.world).0 v)
                  (counter_of_lem tenant_id resource) (subst⁻¹ (λ x. Stands x v) got h.1),
            ))
            (λ e s' x. x))
        (λ e w x. absurd x);
}
  where
    reset :
        (w : W)
        → Reads
            (ignore_error (outside (redis.set_int (version_key tenant_id resource) (pos 1) 0)))
            (beside s w)
            (λ u. Unit)
            (λ e. ⊥)
    reset w = record {
      reads =
          ends_catch _ _ {P = λ u s'. (s'.db ≡ s.db) × Unit {0}}
            {F = λ e s'. (s'.db ≡ s.db) × Unit {0}}
            (reads_seq _ _ (outside_keeps (beside s w) _) (λ a w u. ends_pure tt (refl, tt))
              (λ e w u. (refl, tt)))
            (λ u s' p. p) (λ e s' p. ends_pure tt p);
    }

    counted :
        (answer : Reply ℤ) (w : W)
        → Reads
            (reply pure
              (ignore_error (outside (redis.set_int (version_key tenant_id resource) (pos 1) 0))
                >>= λ _. pure (pos 1))
              (λ e. pure (pos 1))
              answer)
            (beside s w)
            (Stands answer)
            (λ e. ⊥)
    counted (value v) w = record { reads = ends_pure v (refl, refl) }
    counted nil w = record {
      reads = reads_seq _ _ (reset w) (λ u w x. ends_pure _ (refl, refl)) (λ e w x. absurd x);
    }
    counted (failed e) w = record { reads = ends_pure _ (refl, refl) }

-- A step whose error is dropped.
pub ignore_ends :
    {W A : Type 0} (m : Exec W A) (s : State W) (Q : State W → Type 0)
    → Ends m s (λ a s'. Q s') (λ e s'. Q s')
    → Ends (ignore_error m) s (λ u s'. Q s') (λ e s'. ⊥)
ignore_ends m s Q h =
    ends_catch _ _ {P = λ u s'. Q s'} {F = λ e s'. Q s'}
      (ends_seq _ _ h (λ a s' q. ends_pure tt q) (λ e s' q. q)) (λ u s' q. q)
      (λ e s' q. ends_pure tt q)
