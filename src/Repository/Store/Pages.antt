-- ===== src/Repository/Store/Pages.antt =====
-- backend/internal/repository/store.go: what `ListConversations` and `ListTickets` return.
use sociomile.Prelude.{
  ℕ, suc, ℤ, pos, String, ◌≡◌, refl, subst⁻¹, some, List, [], ◌∷◌, select, length, ltb, ◌==◌,
}
use sociomile.Model.{Conversation, Ticket}
use sociomile.Exec.{State, Exec}
use sociomile.Exec.Ends.{ends_pure}
use sociomile.Gorm.{Gorm, Query, Page, IsPage}
use sociomile.Gorm.Laws.{GormLaws, beside}
use sociomile.Gorm.Session.{find}
use sociomile.Gorm.Session.Rules.{Reads, reads_seq, find_reads, count_reads, IsFault}
use sociomile.Repository.Tables
use sociomile.Repository.Filters.{
  ConversationFilter, TicketFilter, apply_conversation_filter, apply_ticket_filter, default_limit,
}
use sociomile.Repository.Store.{
  each, preload_conversation, preload_ticket, list_conversations, list_tickets,
}
use sociomile.Repository.Store.Rules.{
  IsPreloaded, IsLoadedTicket, preload_conversation_reads, preload_ticket_reads,
}

-- Two lists of the same length, related row by row.
abbrev pub IsEach : {A B : Type 0} → (A → B → Type 0) → List A → List B → Type 0
IsEach P [] [] = Unit
IsEach P [] (y ∷ ys) = ⊥
IsEach P (x ∷ xs) [] = ⊥
IsEach P (x ∷ xs) (y ∷ ys) = P x y × IsEach P xs ys

-- `Order("updated_at DESC")` of the rows that pass the filter.
abbrev pub conversations_query : String → ConversationFilter → Query Conversation
conversations_query tenant_id filter = record {
  matches = apply_conversation_filter (λ r. r.tenant_id == tenant_id) filter;
  before = λ a b. ltb b.updated_at a.updated_at;
}

abbrev pub tickets_query : String → TicketFilter → Query Ticket
tickets_query tenant_id filter = record {
  matches = apply_ticket_filter (λ r. r.tenant_id == tenant_id) filter;
  before = λ a b. ltb b.updated_at a.updated_at;
}

-- A page of the rows that a query asks for, loaded one by one, and the number of all of them.
pub record IsListed {R : Type 0} (loaded : R → R → Type 0) (q : Query R) (offset limit : ℕ)
    (rows : List R) (r : List R × ℕ) : Type 0 where
  pub page : List R
  pub is_page : IsPage q offset (some limit) rows page
  pub each_loaded : IsEach loaded page r.0
  pub total : r.1 ≡ length (select q.matches rows)

module _ {W A B : Type 0} (f : A → Exec W B) (s : State W) (P : A → B → Type 0)
    (one : (a : A) (w : W) → Reads (f a) (beside s w) (P a) IsFault) where
  pub each_reads : (xs : List A) (w : W) → Reads (each f xs) (beside s w) (IsEach P xs) IsFault
  unfolding each
  each_reads [] w = record { reads = ends_pure [] (refl, tt) }
  each_reads (x ∷ xs) w = record {
    reads =
        reads_seq _ _ (one x w)
          (λ y w p.
            reads_seq _ _ (each_reads xs w) (λ ys w ps. ends_pure (y ∷ ys) (refl, (p, ps)))
              (λ e w f. (refl, f)))
          (λ e w f. (refl, f));
  }

-- The page of a filter whose offset and limit are in range.
page_of :
    (offset limit : ℤ) (n m : ℕ)
    → offset ≡ pos n
    → limit ≡ pos (suc m)
    → ◌≡◌ {A = Page}
        (record { offset = offset; limit = some (default_limit limit) })
        (record { offset = pos n; limit = some (pos (suc m)) })
page_of offset limit n m p q = λ i. record { offset = p i; limit = some (default_limit (q i)) }

module _ {W : Type 0} (g : Gorm W) (laws : GormLaws g) (s : State W) (tenant_id : String)
    (n m : ℕ) where
  pub list_conversations_reads :
      (filter : ConversationFilter)
      → filter.offset ≡ pos n
      → filter.limit ≡ pos (suc m)
      → Reads
          (list_conversations g tenant_id filter)
          s
          (IsListed
            (IsPreloaded s.db)
            (conversations_query tenant_id filter)
            n
            (suc m)
            s.db.conversations)
          IsFault
  unfolding list_conversations
  list_conversations_reads filter p q = record {
    reads =
        reads_seq _ _ (count_reads g laws s Tables.conversations _)
          (λ total w counted.
            reads_seq _ _
              (subst⁻¹
                (λ page.
                  Reads (find g Tables.conversations (conversations_query tenant_id filter) page)
                    (beside s w)
                    (IsPage (conversations_query tenant_id filter) n (some (suc m))
                      s.db.conversations)
                    IsFault)
                (page_of filter.offset filter.limit n m p q)
                (find_reads g laws (beside s w) Tables.conversations
                  (conversations_query tenant_id filter) n (some (suc m))))
              (λ rows w page.
                reads_seq _ _
                  (each_reads (preload_conversation g) s (IsPreloaded s.db)
                    (λ row w. preload_conversation_reads g laws (beside s w) row) rows w)
                  (λ loaded w each. ends_pure _ (
                    refl,
                    record { page = rows; is_page = page; each_loaded = each; total = counted },
                  ))
                  (λ e w f. (refl, f)))
              (λ e w f. (refl, f)))
          (λ e w f. (refl, f));
  }

  pub list_tickets_reads :
      (filter : TicketFilter)
      → filter.offset ≡ pos n
      → filter.limit ≡ pos (suc m)
      → Reads
          (list_tickets g tenant_id filter)
          s
          (IsListed (IsLoadedTicket s.db) (tickets_query tenant_id filter) n (suc m) s.db.tickets)
          IsFault
  unfolding list_tickets
  list_tickets_reads filter p q = record {
    reads =
        reads_seq _ _ (count_reads g laws s Tables.tickets _)
          (λ total w counted.
            reads_seq _ _
              (subst⁻¹
                (λ page.
                  Reads (find g Tables.tickets (tickets_query tenant_id filter) page) (beside s w)
                    (IsPage (tickets_query tenant_id filter) n (some (suc m)) s.db.tickets) IsFault)
                (page_of filter.offset filter.limit n m p q)
                (find_reads g laws (beside s w) Tables.tickets (tickets_query tenant_id filter) n
                  (some (suc m))))
              (λ rows w page.
                reads_seq _ _
                  (each_reads (preload_ticket g) s (IsLoadedTicket s.db)
                    (λ row w. preload_ticket_reads g laws (beside s w) row) rows w)
                  (λ loaded w each. ends_pure _ (
                    refl,
                    record { page = rows; is_page = page; each_loaded = each; total = counted },
                  ))
                  (λ e w f. (refl, f)))
              (λ e w f. (refl, f)))
          (λ e w f. (refl, f));
  }
