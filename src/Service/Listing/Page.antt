-- ===== src/Service/Listing/Page.antt =====
-- backend/internal/service: what `ListConversations` and `ListTickets` return.
use sociomile.Prelude.{
  arith, ℕ, suc, ℤ, pos, String, ◌≡◌, ◌≤◌, ◌⊎◌, inl, inr, refl, sym, ◌∙◌, subst, Option, none, some,
  List,
}
use sociomile.Model.{Conversation, Ticket}
use sociomile.Exec.{ok, State, Exec, pure, catch}
use sociomile.Exec.Ends.{Ends, ends_pure, ends_seq, ends_catch, ends_weaken, ends_ok}
use sociomile.Gorm.{Gorm, Query}
use sociomile.Gorm.Laws.{GormLaws, beside}
use sociomile.Gorm.Session.Rules.{Reads, reads_seq, IsFault}
use sociomile.Redis.{Codec}
use sociomile.Repository.Store.Rules.{IsPreloaded, IsLoadedTicket}
use sociomile.Repository.Store.Pages.{IsListed, list_conversations_reads, list_tickets_reads}
use sociomile.Cache.{Client, get_json}
use sociomile.Cache.Rules.{
  IsHit, IsHitOption, IsVersion, get_json_reads, set_json_reads, version_reads, ignore_ends,
}
use sociomile.Service.Paging.{
  normalize_offset, normalize_limit, normalize_offset_lem, normalize_limit_lem,
}
use sociomile.Service.Listing.{
  ListConversationsInput, ListTicketsInput, conversation_filter, ticket_filter, five_minutes,
  cached_or, cached, list_conversations, list_tickets,
}
use sociomile.Service.Listing.Asked.{
  first_row, page_size, first_row_lem, page_size_lem, wanted_conversations, wanted_tickets,
  conversations_kept, tickets_kept, conversations_kept_lem, tickets_kept_lem,
  wanted_conversations_lem, wanted_tickets_lem,
}

module _ {W A : Type 0} (cache : Client W) (codec : Codec A) (k : String) (load : Exec W A)
    (s : State W) (Q : A → Type 0) (loads : (w : W) → Reads load (beside s w) Q IsFault) where
  cached_or_reads :
      (hit : Option A) (w : W)
      → IsHitOption cache codec k hit
      → Reads
          (cached_or cache codec k load hit)
          (beside s w)
          (λ a. IsHit cache codec k a ⊎ Q a)
          IsFault
  unfolding cached_or
  cached_or_reads (some a) w h = record { reads = ends_pure a (refl, inl h) }
  cached_or_reads none w h = record {
    reads =
        reads_seq _ _ (loads w)
          (λ a w q.
            ends_seq _ _
              (ignore_ends _ (beside s w) (λ s'. s'.db ≡ s.db)
                (ends_weaken _ (set_json_reads (beside s w) cache codec k a five_minutes).reads
                  (λ u s' p. p.0) (λ e s' p. p.0)))
              (λ u s' same. ends_pure a (same, inr q)) (λ e s' x. absurd x))
          (λ e w f. (refl, f));
  }

  cached_reads : Reads (cached cache codec k load) s (λ a. IsHit cache codec k a ⊎ Q a) IsFault
  unfolding cached
  cached_reads = record {
    reads =
        reads_seq _ _ hit_reads (λ hit w h. (cached_or_reads hit w h).reads) (λ e w x. absurd x);
  }
    where
      hit_reads :
          Reads
            (catch (get_json cache codec k) (λ e. pure none))
            s
            (IsHitOption cache codec k)
            (λ e. ⊥)
      hit_reads = record {
        reads =
            ends_catch _ _ (get_json_reads s cache codec k).reads (λ o s' p. p)
              (λ e s' p. ends_pure none (p.0, tt));
      }

-- A list comes from the cache, under the key of the tenant, of its version and of the filter; or it is
-- the page of the tables that the filter asks for, of at least 1 and at most 100 rows.
pub data IsAnswer {W R : Type 0} (cache : Client W) (codec : Codec (List R × ℕ))
    (IsCurrent : ℤ → Type 0) (k : ℤ → String) (Listed : ℕ → ℕ → List R × ℕ → Type 0)
    (offset limit : ℤ) (r : List R × ℕ) : Type 0 where
  from_cache :
      (v : ℤ)
      → IsCurrent v
      → IsHit cache codec (k v) r
      → IsAnswer cache codec IsCurrent k Listed offset limit r
  from_tables :
      (n m : ℕ)
      → first_row offset ≡ pos n
      → page_size limit ≡ pos m
      → 1 ≤ m
      → m ≤ 100
      → Listed n m r
      → IsAnswer cache codec IsCurrent k Listed offset limit r

-- The answer under another writing of the key and of the query.
answer_at :
    {W R : Type 0} (cache : Client W) (codec : Codec (List R × ℕ)) (loaded : R → R → Type 0)
    (k k' : String) (q q' : Query R) (n m : ℕ) (rows : List R) (r : List R × ℕ)
    → k ≡ k'
    → q ≡ q'
    → IsHit cache codec k r ⊎ IsListed loaded q n m rows r
    → IsHit cache codec k' r ⊎ IsListed loaded q' n m rows r
answer_at cache codec loaded k k' q q' n m rows r e f (inl hit) =
    inl (subst (λ x. IsHit cache codec x r) e hit)
answer_at cache codec loaded k k' q q' n m rows r e f (inr listed) =
    inr (subst (λ x. IsListed loaded x n m rows r) f listed)

IsAnswer-of :
    {W R : Type 0} (cache : Client W) (codec : Codec (List R × ℕ)) (IsCurrent : ℤ → Type 0)
    (k : ℤ → String) (Listed : ℕ → ℕ → List R × ℕ → Type 0) (offset limit v : ℤ) (r : List R × ℕ)
    (n m : ℕ)
    → normalize_offset offset ≡ pos n
    → normalize_limit limit ≡ pos (suc m)
    → suc m ≤ 100
    → IsCurrent v
    → IsHit cache codec (k v) r ⊎ Listed n (suc m) r
    → IsAnswer cache codec IsCurrent k Listed offset limit r
IsAnswer-of cache codec IsCurrent k Listed offset limit v r n m p q most now (inl hit) =
    from_cache v now hit
IsAnswer-of cache codec IsCurrent k Listed offset limit v r n m p q most now (inr listed) =
    from_tables n (suc m) (sym (first_row_lem offset) ∙ p) (sym (page_size_lem limit) ∙ q)
      (omega arith) most listed

module _ {W : Type 0} (g : Gorm W) (laws : GormLaws g) (cache : Client W) (tenant_id : String)
    (s : State W) where
  conversations_ends :
      (codec : Codec (List Conversation × ℕ)) (input : ListConversationsInput)
      → Ends
          (list_conversations g cache codec tenant_id input)
          s
          (λ r s'.
            (s'.db ≡ s.db)
            × IsAnswer cache codec
                (IsVersion cache tenant_id "conversations" s.world)
                (conversations_kept tenant_id input)
                (λ n m.
                  IsListed
                    (IsPreloaded s.db)
                    (wanted_conversations tenant_id input)
                    n
                    m
                    s.db.conversations)
                input.offset
                input.limit
                r)
          (λ e s'. (s'.db ≡ s.db) × IsFault e)
  unfolding list_conversations conversation_filter
  conversations_ends codec input =
      let (n, p) = normalize_offset_lem input.offset in
      let (m, q, most) = normalize_limit_lem input.limit in
      reads_seq _ _ (version_reads s cache tenant_id "conversations")
        (λ v w u.
          ends_weaken _
            (cached_reads cache codec _ _ (beside s w) _ (λ w.
              list_conversations_reads g laws (beside s w) tenant_id n m (conversation_filter input)
                p q)).reads
            (λ r s' h. (
              h.0,
              IsAnswer-of cache codec (IsVersion cache tenant_id "conversations" s.world)
                  (conversations_kept tenant_id input) _ input.offset input.limit v r n m p q most u
                  (answer_at cache codec (IsPreloaded s.db) _ _ _ _ n (suc m) s.db.conversations r
                    (conversations_kept_lem tenant_id input v)
                    (wanted_conversations_lem tenant_id input) h.1),
            ))
            (λ e s' f. f))
        (λ e w x. absurd x)

  tickets_ends :
      (codec : Codec (List Ticket × ℕ)) (input : ListTicketsInput)
      → Ends
          (list_tickets g cache codec tenant_id input)
          s
          (λ r s'.
            (s'.db ≡ s.db)
            × IsAnswer cache codec
                (IsVersion cache tenant_id "tickets" s.world)
                (tickets_kept tenant_id input)
                (λ n m.
                  IsListed (IsLoadedTicket s.db) (wanted_tickets tenant_id input) n m s.db.tickets)
                input.offset
                input.limit
                r)
          (λ e s'. (s'.db ≡ s.db) × IsFault e)
  unfolding list_tickets ticket_filter
  tickets_ends codec input =
      let (n, p) = normalize_offset_lem input.offset in
      let (m, q, most) = normalize_limit_lem input.limit in
      reads_seq _ _ (version_reads s cache tenant_id "tickets")
        (λ v w u.
          ends_weaken _
            (cached_reads cache codec _ _ (beside s w) _ (λ w.
              list_tickets_reads g laws (beside s w) tenant_id n m (ticket_filter input) p q)).reads
            (λ r s' h. (
              h.0,
              IsAnswer-of cache codec (IsVersion cache tenant_id "tickets" s.world)
                  (tickets_kept tenant_id input) _ input.offset input.limit v r n m p q most u
                  (answer_at cache codec (IsLoadedTicket s.db) _ _ _ _ n (suc m) s.db.tickets r
                    (tickets_kept_lem tenant_id input v) (wanted_tickets_lem tenant_id input) h.1),
            ))
            (λ e s' f. f))
        (λ e w x. absurd x)

  -- A list of conversations changes no table. It is what the cache holds under the key of the tenant, the
  -- version that its lists had at the start and the filter; or it is the page that starts at the
  -- offset, 0 if that is negative, and has the limit, which is between 1 and 100, of the rows of the
  -- tenant that pass the filter, newest update first, with the number of all of these rows.
  pub list_conversations_ok :
      (codec : Codec (List Conversation × ℕ)) (input : ListConversationsInput)
      (r : List Conversation × ℕ) (s' : State W)
      → list_conversations g cache codec tenant_id input s ≡ (ok r, s')
      → (s'.db ≡ s.db)
        × IsAnswer cache codec
            (IsVersion cache tenant_id "conversations" s.world)
            (conversations_kept tenant_id input)
            (λ n m.
              IsListed
                (IsPreloaded s.db)
                (wanted_conversations tenant_id input)
                n
                m
                s.db.conversations)
            input.offset
            input.limit
            r
  list_conversations_ok codec input r s' e = ends_ok (conversations_ends codec input) r s' e

  -- A list of tickets changes no table. It is what the cache holds under the key of the tenant, the
  -- version that its lists had at the start and the filter; or it is the page that starts at the
  -- offset, 0 if that is negative, and has the limit, which is between 1 and 100, of the rows of the
  -- tenant that pass the filter, newest update first, with the number of all of these rows.
  pub list_tickets_ok :
      (codec : Codec (List Ticket × ℕ)) (input : ListTicketsInput) (r : List Ticket × ℕ)
      (s' : State W)
      → list_tickets g cache codec tenant_id input s ≡ (ok r, s')
      → (s'.db ≡ s.db)
        × IsAnswer cache codec
            (IsVersion cache tenant_id "tickets" s.world)
            (tickets_kept tenant_id input)
            (λ n m.
              IsListed (IsLoadedTicket s.db) (wanted_tickets tenant_id input) n m s.db.tickets)
            input.offset
            input.limit
            r
  list_tickets_ok codec input r s' e = ends_ok (tickets_ends codec input) r s' e
