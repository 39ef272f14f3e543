-- ===== src/Gorm/Session/Rules.antt =====
-- The rules of `Ends` for the operations of a session. A rule for a first step hands its facts
-- and the state after it to the rest of the code.
use sociomile.Prelude.{
  Bool, length, select, ℕ, pos, String, ◌≡◌, ◌≢◌, ◌⊎◌, inl, inr, refl, sym, subst, true, false,
  Option, none, some, List, Member,
}
use sociomile.Apperror.{Error, record_not_found}
use sociomile.Model.{Db}
use sociomile.Model.Schema.{Schema}
use sociomile.Exec.{Result, ok, err, State, Exec, outside, continue, ◌>>=◌}
use sociomile.Exec.Ends.{Ends, Holds, ends_from, ends_weaken, ends_seq, ends_ok, ends_err}
use sociomile.Gorm.{Gorm, Query, IsEngine, IsPage}
use sociomile.Gorm.Laws.{GormLaws, IsCreated, IsSaved, beside, pos_option}
use sociomile.Gorm.Session.{Table, first, find, count, preload, create, save, now, wrote}

-- An action that changes no table.
pub record Reads {W A : Type 0} (m : Exec W A) (s : State W) (P : A → Type 0) (F : Error → Type 0)
    : Type 0 where
  pub reads : Ends m s (λ a s'. (s'.db ≡ s.db) × P a) (λ e s'. (s'.db ≡ s.db) × F e)

module _ {W A B : Type 0} {s : State W} {Q : B → State W → Type 0} {E : Error → State W → Type 0}
    (m : Exec W A) (f : A → Exec W B) {P : A → Type 0} {F : Error → Type 0} where
  pub reads_seq :
      Reads m s P F
      → ((a : A) (w : W) → P a → Ends (f a) (beside s w) Q E)
      → ((e : Error) (w : W) → F e → E e (beside s w))
      → Ends (m >>= f) s Q E
  reads_seq h next stop =
      ends_seq m f h.reads
        (λ a s' p.
          subst (λ d. Ends (f a) (record { db = d; world = s'.world }) Q E) (sym p.0)
            (next a s'.world p.1))
        (λ e s' p.
          subst (λ d. E e (record { db = d; world = s'.world })) (sym p.0) (stop e s'.world p.1))

module _ {W A : Type 0} (f : W → Result A × W) (s : State W) {P : A → Type 0}
    {F : Error → Type 0} where
  pub outside_reads :
      ((a : A) (w : W) → f s.world ≡ (ok a, w) → P a)
      → ((e : Error) (w : W) → f s.world ≡ (err e, w) → F e)
      → Reads (outside f) s P F
  unfolding outside
  outside_reads good bad = record { reads = record { at = go (f s.world).0 (f s.world).1 refl } }
    where
      go :
          (r : Result A) (w : W)
          → f s.world ≡ (r, w)
          → Holds {W = W}
              (λ a s'. (s'.db ≡ s.db) × P a)
              (λ e s'. (s'.db ≡ s.db) × F e)
              r
              (record s { world = w })
      go (ok a) w e = (refl, good a w e)
      go (err x) w e = (refl, bad x w e)

-- What the rows say of a query that found a record, and of one that did not.
abbrev pub Found : {R : Type 0} → Query R → List R → R → Type 0
Found q rows r =
    Member r rows
    × (q.matches r ≡ true)
    × ((x : _) → Member x rows → q.matches x ≡ true → q.before x r ≡ false)

abbrev pub Missing : {R : Type 0} → Query R → List R → Error → Type 0
Missing q rows e =
    IsEngine e × (e ≡ record_not_found → (x : _) → Member x rows → q.matches x ≡ false)

abbrev pub Loaded : {R : Type 0} → (R → String) → Option String → List R → Option R → Type 0
Loaded id fk rows none = (k : String) → fk ≡ some k → (x : _) → Member x rows → id x ≢ k
Loaded id fk rows (some r) = Member r rows × (fk ≡ some (id r))

-- The clock has told this time.
abbrev pub IsNow : {W : Type 0} → Gorm W → ℕ → Type 0
IsNow {W} g t = (w : W) × ((g.now w).0 ≡ t)

abbrev pub IsFault : Error → Type 0
IsFault e = IsEngine e × (e ≢ record_not_found)

-- `First` answered with an error at these rows, which says that no row matches where it is
-- `ErrRecordNotFound`.
pub record IsMissed {W R : Type 0} (g : Gorm W) (q : Query R) (rows : List R) (e : Error)
    : Type 0 where
  pub before : W
  pub later : W
  pub answered : g.first q rows before ≡ (err e, later)
  pub missing : Missing q rows e

module _ {W : Type 0} (g : Gorm W) (laws : GormLaws g) (s : State W) where
  open laws use {first_found, first_missing, first_engine, preload_found, preload_missing}
  open laws use {preload_engine, create_row, create_engine, save_row, save_engine}
  open laws use {count_selected, count_engine}
  open laws use {commit, rollback, find_page, find_engine}

  pub IsMissed-reads :
      {R : Type 0} (t : Table R) (q : Query R)
      → Reads (first g t q) s (Found q (t.rows s.db)) (IsMissed g q (t.rows s.db))
  unfolding first outside
  IsMissed-reads t q = record {
    reads = record {
      at =
          (outside_reads (g.first q (t.rows s.db)) s {P = Found q (t.rows s.db)}
            {F = IsMissed g q (t.rows s.db)} (λ r w e. first_found q (t.rows s.db) s.world r w e)
            (λ x w e. record {
              before = s.world;
              later = w;
              answered = e;
              missing = (
                first_engine q (t.rows s.db) s.world x w e,
                λ n. first_missing q (t.rows s.db) s.world w (rw n at e),
              );
            })).reads.at;
    };
  }

  pub first_reads :
      {R : Type 0} (t : Table R) (q : Query R)
      → Reads (first g t q) s (Found q (t.rows s.db)) (Missing q (t.rows s.db))
  first_reads t q = record {
    reads = ends_weaken _ (IsMissed-reads t q).reads (λ r s' p. p) (λ e s' p. (p.0, p.1.missing));
  }

  -- With the call that was answered with an error.
  pub preload_missed :
      {R : Type 0} (t : Table R) (id : R → String) (fk : Option String)
      → Reads (preload g t id fk) s (Loaded id fk (t.rows s.db)) (λ e.
        (before : W) × (later : W) × (g.preload id fk (t.rows s.db) before ≡ (err e, later)))
  unfolding preload outside
  preload_missed {R} t id fk = record {
    reads = record {
      at =
          (outside_reads (g.preload id fk (t.rows s.db)) s {P = Loaded id fk (t.rows s.db)}
            {F = λ e.
              (before : W) × (later : W) × (g.preload id fk (t.rows s.db) before ≡ (err e, later))}
            found (λ x w e. (s.world, w, e))).reads.at;
    };
  }
    where
      found :
          (o : Option R) (w : W)
          → g.preload id fk (t.rows s.db) s.world ≡ (ok o, w)
          → Loaded id fk (t.rows s.db) o
      found none w e = λ k same. preload_missing id k (t.rows s.db) s.world w (rw same at e)
      found (some r) w e = preload_found id fk (t.rows s.db) s.world r w e

  pub preload_reads :
      {R : Type 0} (t : Table R) (id : R → String) (fk : Option String)
      → Reads (preload g t id fk) s (Loaded id fk (t.rows s.db)) IsFault
  preload_reads t id fk = record {
    reads =
        ends_weaken _ (preload_missed t id fk).reads (λ o s' p. p)
          (λ e s' (same, (before, later, answered)).
            (same, preload_engine id fk _ before e later answered));
  }

  pub find_reads :
      {R : Type 0} (t : Table R) (q : Query R) (offset : ℕ) (limit : Option ℕ)
      → Reads
          (find g t q (record { offset = pos offset; limit = pos_option limit }))
          s
          (IsPage q offset limit (t.rows s.db))
          IsFault
  unfolding find outside
  find_reads t q offset limit = record {
    reads = record {
      at =
          (outside_reads (g.find q _ (t.rows s.db)) s {P = IsPage q offset limit (t.rows s.db)}
            {F = IsFault} (λ xs w e. find_page q offset limit (t.rows s.db) s.world xs w e)
            (λ x w e. find_engine q _ (t.rows s.db) s.world x w e)).reads.at;
    };
  }

  pub count_reads :
      {R : Type 0} (t : Table R) (p : R → Bool)
      → Reads (count g t p) s (λ n. n ≡ length (select p (t.rows s.db))) IsFault
  unfolding count outside
  count_reads t p = record {
    reads = record {
      at =
          (outside_reads (g.count p (t.rows s.db)) s {P = λ n. n ≡ length (select p (t.rows s.db))}
            {F = IsFault} (λ n w e. count_selected p (t.rows s.db) s.world n w e)
            (λ x w e. count_engine p (t.rows s.db) s.world x w e)).reads.at;
    };
  }

  pub now_reads : Reads (now g) s (IsNow g) (λ e. ⊥)
  unfolding now
  now_reads = record { reads = record { at = (refl, (s.world, refl)) } }

  module _ {R B : Type 0} (t : Table R) (sc : Schema R) (r : R) (f : R → Exec W B)
      {Q : B → State W → Type 0} {E : Error → State W → Type 0} where
    pub create_seq :
        ((r' : R) (rows' : List R) (w : W)
          → IsCreated sc r (t.rows s.db) r' rows'
          → Ends (f r') (record { db = t.put rows' s.db; world = w }) Q E)
        → ((e : Error) (w : W) → IsFault e → E e (beside s w))
        → Ends (create g t sc r >>= f) s Q E
    unfolding create ◌>>=◌
    create_seq next stop = record {
      at = go (g.create sc r (t.rows s.db) s.world).0 (g.create sc r (t.rows s.db) s.world).1 refl;
    }
      where
        go :
            (x : Result (R × List R)) (w : W)
            → g.create sc r (t.rows s.db) s.world ≡ (x, w)
            → Holds Q E
                (continue f (wrote t s (x, w)).0 (wrote t s (x, w)).1).0
                (continue f (wrote t s (x, w)).0 (wrote t s (x, w)).1).1
        go (ok (r', rows')) w e = (next r' rows' w (create_row sc r _ s.world r' rows' w e)).at
        go (err x) w e = stop x w (create_engine sc r _ s.world x w e)

    pub save_seq :
        ((r' : R) (rows' : List R) (w : W)
          → IsSaved sc r (t.rows s.db) r' rows'
          → Ends (f r') (record { db = t.put rows' s.db; world = w }) Q E)
        → ((e : Error) (w : W) → IsFault e → E e (beside s w))
        → Ends (save g t sc r >>= f) s Q E
    unfolding save ◌>>=◌
    save_seq next stop = record {
      at = go (g.save sc r (t.rows s.db) s.world).0 (g.save sc r (t.rows s.db) s.world).1 refl;
    }
      where
        go :
            (x : Result (R × List R)) (w : W)
            → g.save sc r (t.rows s.db) s.world ≡ (x, w)
            → Holds Q E
                (continue f (wrote t s (x, w)).0 (wrote t s (x, w)).1).0
                (continue f (wrote t s (x, w)).0 (wrote t s (x, w)).1).1
        go (ok (r', rows')) w e = (next r' rows' w (save_row sc r _ s.world r' rows' w e)).at
        go (err x) w e = stop x w (save_engine sc r _ s.world x w e)

  -- A transaction ends as its body does, whatever the world in which it runs it; where it fails,
  -- no table has changed, and the engine may have failed it.
  pub ends_transaction :
      {A : Type 0} (m : Exec W A) (Q : A → Db → Type 0) (F : Error → Type 0)
      → ((w : W) → Ends m (beside s w) (λ a s'. Q a s'.db) (λ e s'. F e))
      → Ends (g.transaction m) s (λ a s'. Q a s'.db) (λ e s'. (s'.db ≡ s.db) × (IsFault e ⊎ F e))
  ends_transaction m Q F h =
      ends_from
        (λ a s' e. let (w, w', run) = commit m s a s' e in ends_ok (h w) a (beside s' w') run)
        (λ x s' e.
          let (same, why) = rollback m s x s' e in
          (
            same,
            elim why [ inl fault ↦ inl fault | inr (w, t, run) ↦ inr (ends_err (h w) x t run) ],
          ))
