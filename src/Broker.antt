-- ===== src/Broker.antt =====
-- backend/internal/events/publisher.go. The client of RabbitMQ (rabbitmq/amqp091-go) is not part of the
-- repository and is a parameter: `C` is its connection and `Ch` its channel, neither of them nil.
pub mod Resources
use sociomile.Prelude.{String, Option, none, some}
use sociomile.Model.{Payload}
use sociomile.Exec.Io.{Io, pure, fail, ◌>>=◌, ◌>>◌, catch}

pub record Amqp (W C Ch : Type 0) : Type 0 where
  pub dial : String → Io W C
  -- `connection.Channel()`
  pub open_channel : C → Io W Ch
  -- `ExchangeDeclare` of a durable topic exchange
  pub declare_exchange : Ch → String → Io W (Unit {0})
  -- `PublishWithContext` of a persistent JSON message, from the exchange, the routing key and the body
  pub publish : Ch → String → String → Payload → Io W (Unit {0})
  pub close_channel : Ch → Io W (Unit {0})
  pub close_connection : C → Io W (Unit {0})

-- `ExchangeName`
abbrev pub exchange_name : String
exchange_name = "sociomile.events"

-- `Publisher`
pub record Publisher (C Ch : Type 0) : Type 0 where
  pub connection : C
  pub channel : Ch
  pub exchange : String

module _ {W C Ch : Type 0} (amqp : Amqp W C Ch) where
  abbrev ignored : Io W (Unit {0}) → Io W (Unit {0})
  ignored m = catch m (λ e. pure tt)

  -- `NewPublisher`
  unfoldable pub new_publisher : String → Io W (Publisher C Ch)
  new_publisher url = do
    connection ← amqp.dial url
    channel ←
        catch (amqp.open_channel connection)
          (λ e. ignored (amqp.close_connection connection) >> fail e)
    catch (amqp.declare_exchange channel exchange_name) (λ e. do
      ignored (amqp.close_channel channel)
      ignored (amqp.close_connection connection)
      fail e)
    pure (record { connection = connection; channel = channel; exchange = exchange_name })

  -- `Publish`, of a pointer
  unfoldable pub publish : Option (Publisher C Ch) → String → Payload → Io W (Unit {0})
  publish none routing_key payload = pure tt
  publish (some p) routing_key payload = amqp.publish p.channel p.exchange routing_key payload

  -- `Close`, of a pointer
  unfoldable pub close : Option (Publisher C Ch) → Io W (Unit {0})
  close none = pure tt
  close (some p) =
      catch (amqp.close_channel p.channel)
        (λ e. ignored (amqp.close_connection p.connection) >> fail e)
      >> amqp.close_connection p.connection
