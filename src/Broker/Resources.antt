-- ===== src/Broker/Resources.antt =====
-- backend/internal/events/publisher.go: which connections stay open.
use sociomile.Prelude.{String, ◌≡◌, refl, sym, ap, ◌∙◌, some, List, ◌∷◌}
use sociomile.Model.{Payload}
use sociomile.Apperror.{Error}
use sociomile.Exec.{Result, ok, err}
use sociomile.Exec.Io.{
  Io, pure, fail, Leads, leads_seq, leads_catch, leads_weaken, leads_from, Holds,
}
use sociomile.Broker.{Amqp, Publisher, ignored, new_publisher, close, exchange_name}

-- `live` is the connections that are open. A connection that is closed is open no more, even where the
-- call says that something went wrong; the other calls open and close none.
pub record AmqpLaws {W C Ch : Type 0} (amqp : Amqp W C Ch) (live : W → List C) : Type 0 where
  pub dialled :
      (url : String) (w : W) (c : C) (v : W) → amqp.dial url w ≡ (ok c, v) → live v ≡ c ∷ live w
  pub dial_failed :
      (url : String) (w : W) (e : Error) (v : W) → amqp.dial url w ≡ (err e, v) → live v ≡ live w
  pub channel_kept : (c : C) (w : W) → live (amqp.open_channel c w).1 ≡ live w
  pub declare_kept :
      (ch : Ch) (name : String) (w : W) → live (amqp.declare_exchange ch name w).1 ≡ live w
  pub publish_kept :
      (ch : Ch) (exchange key : String) (p : Payload) (w : W)
      → live (amqp.publish ch exchange key p w).1 ≡ live w
  pub close_channel_kept : (ch : Ch) (w : W) → live (amqp.close_channel ch w).1 ≡ live w
  pub closed :
      (c : C) (w : W) (others : List C)
      → live w ≡ c ∷ others
      → live (amqp.close_connection c w).1 ≡ others

module _ {W C Ch : Type 0} (amqp : Amqp W C Ch) (live : W → List C)
    (laws : AmqpLaws amqp live) where
  -- A call that ends in a state with these connections, however it ends.
  to_live :
      {A : Type 0} (m : Io W A) (w : W) (cs : List C)
      → live (m w).1 ≡ cs
      → Leads m w (λ a v. live v ≡ cs) (λ e v. live v ≡ cs)
  to_live m w cs h =
      leads_from m w (λ a v e. ap (λ r. live r.1) (sym e) ∙ h)
        (λ x v e. ap (λ r. live r.1) (sym e) ∙ h)

  ignored_leads :
      (m : Io W (Unit {0})) (w : W) (cs : List C)
      → live (m w).1 ≡ cs
      → Leads (ignored amqp m) w (λ a v. live v ≡ cs) (λ e v. ⊥)
  unfolding pure
  ignored_leads m w cs h =
      leads_catch m _ (to_live m w cs h) (λ a v k. k) (λ e v k. record { at = k })

  failing :
      {A : Type 0} (e : Error) (w : W) (cs : List C) {Q : A → W → Type 0}
      → live w ≡ cs
      → Leads (fail e) w Q (λ e v. live v ≡ cs)
  unfolding fail
  failing e w cs h = record { at = h }

  close_leads :
      (p : Publisher C Ch) (w : W) (others : List C)
      → live w ≡ p.connection ∷ others
      → Leads (close amqp (some p)) w (λ u v. live v ≡ others) (λ e v. live v ≡ others)
  unfolding close
  close_leads p w others h =
      leads_seq _ _
        (leads_catch _ _ {Q = λ u v. live v ≡ p.connection ∷ others} {E = λ e v. live v ≡ others}
          (to_live (amqp.close_channel p.channel) w (p.connection ∷ others)
            (laws.close_channel_kept p.channel w ∙ h))
          (λ u v k. k)
          (λ e v k.
            leads_seq _ _
              (ignored_leads (amqp.close_connection p.connection) v others
                (laws.closed p.connection v others k))
              (λ u v' k'. failing e v' others k') (λ x v' k'. absurd k')))
        (λ u v k.
          to_live (amqp.close_connection p.connection) v others
            (laws.closed p.connection v others k))
        (λ e v k. k)

  new_publisher_leads :
      (url : String) (w : W)
      → Leads
          (new_publisher amqp url)
          w
          (λ p v. (live v ≡ p.connection ∷ live w) × (p.exchange ≡ exchange_name))
          (λ e v. live v ≡ live w)
  unfolding new_publisher pure
  new_publisher_leads url w =
      leads_seq _ _
        (leads_from (amqp.dial url) w {Q = λ c v. live v ≡ c ∷ live w} {E = λ e v. live v ≡ live w}
          (λ c v e. laws.dialled url w c v e) (λ x v e. laws.dial_failed url w x v e))
        (λ c v up.
          leads_seq _ _
            (leads_catch _ _ {Q = λ ch v. live v ≡ c ∷ live w} {E = λ e v. live v ≡ live w}
              (to_live (amqp.open_channel c) v (c ∷ live w) (laws.channel_kept c v ∙ up))
              (λ ch v' k. k)
              (λ e v' k.
                leads_seq _ _
                  (ignored_leads (amqp.close_connection c) v' (live w)
                    (laws.closed c v' (live w) k))
                  (λ u v'' k'. failing e v'' (live w) k') (λ x v'' k'. absurd k')))
            (λ ch v' k.
              leads_seq _ _
                (leads_catch _ _ {Q = λ u v. live v ≡ c ∷ live w} {E = λ e v. live v ≡ live w}
                  (to_live (amqp.declare_exchange ch exchange_name) v' (c ∷ live w)
                    (laws.declare_kept ch exchange_name v' ∙ k))
                  (λ u t j. j)
                  (λ e t j.
                    leads_seq _ _
                      (ignored_leads (amqp.close_channel ch) t (c ∷ live w)
                        (laws.close_channel_kept ch t ∙ j))
                      (λ u t' j'.
                        leads_seq _ _
                          (ignored_leads (amqp.close_connection c) t' (live w)
                            (laws.closed c t' (live w) j'))
                          (λ u t'' j''. failing e t'' (live w) j'') (λ x t'' j''. absurd j''))
                      (λ x t' j'. absurd j')))
                (λ u t j. record { at = (j, refl) }) (λ e t j. j))
            (λ e v' k. k))
        (λ e v k. k)

  closed_by :
      (p : Publisher C Ch) (w : W) (others : List C)
      → live w ≡ p.connection ∷ others
      → live (close amqp (some p) w).1 ≡ others
  closed_by p w others h =
      go (close amqp (some p) w).0 (close amqp (some p) w).1 (close_leads p w others h).at
    where
      go :
          (r : Result (Unit {0})) (v : W)
          → Holds (λ u v. live v ≡ others) (λ e v. live v ≡ others) r v
          → live v ≡ others
      go (ok u) v k = k
      go (err e) v k = k

  -- A publisher that could not be made leaves no connection open that was not open before, whichever
  -- step failed. One that was made has opened a single connection, which `Close` gives back, also where
  -- the channel or the connection does not close cleanly.
  pub close-new_publisher :
      (url : String) (w : W)
      → Leads
          (new_publisher amqp url)
          w
          (λ p v. (live v ≡ p.connection ∷ live w) × (live (close amqp (some p) v).1 ≡ live w))
          (λ e v. live v ≡ live w)
  close-new_publisher url w =
      leads_weaken _ (new_publisher_leads url w) (λ p v (up, name). (up, closed_by p v (live w) up))
        (λ e v k. k)
