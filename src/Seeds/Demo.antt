-- ===== src/Seeds/Demo.antt =====
-- backend/seeds/default.go: the demo records.
use sociomile.Prelude.{String, true, none, some, List, [], ◌∷◌}
use sociomile.Model.{
  BaseModel, Tenant, User, Channel, Customer, Conversation, Message, Ticket, role_admin, role_agent,
  conversation_status_open, conversation_status_assigned, sender_type_customer, sender_type_agent,
  ticket_status_in_progress, ticket_priority_high,
}

abbrev pub numbered : String → BaseModel
numbered id = record { id = id; created_at = 0; updated_at = 0 }

abbrev pub demo_tenants : List Tenant
demo_tenants =
    record {
      base = numbered "11111111-1111-1111-1111-111111111111";
      name = "Acme Support";
      slug = "acme-support";
    }
    ∷ record {
      base = numbered "22222222-2222-2222-2222-222222222222";
      name = "Globex Care";
      slug = "globex-care";
    }
    ∷ []

abbrev pub demo_users : String → List User
demo_users password_hash =
    record {
      base = numbered "11111111-aaaa-aaaa-aaaa-111111111111";
      tenant_id = "11111111-1111-1111-1111-111111111111";
      name = "Alice Admin";
      email = "alice.admin@acme.local";
      password_hash = password_hash;
      role = role_admin;
      active = true;
      tenant = none;
    }
    ∷ record {
      base = numbered "11111111-bbbb-bbbb-bbbb-111111111111";
      tenant_id = "11111111-1111-1111-1111-111111111111";
      name = "Aaron Agent";
      email = "aaron.agent@acme.local";
      password_hash = password_hash;
      role = role_agent;
      active = true;
      tenant = none;
    }
    ∷ record {
      base = numbered "22222222-aaaa-aaaa-aaaa-222222222222";
      tenant_id = "22222222-2222-2222-2222-222222222222";
      name = "Grace Admin";
      email = "grace.admin@globex.local";
      password_hash = password_hash;
      role = role_admin;
      active = true;
      tenant = none;
    }
    ∷ record {
      base = numbered "22222222-bbbb-bbbb-bbbb-222222222222";
      tenant_id = "22222222-2222-2222-2222-222222222222";
      name = "Gina Agent";
      email = "gina.agent@globex.local";
      password_hash = password_hash;
      role = role_agent;
      active = true;
      tenant = none;
    }
    ∷ []

abbrev pub demo_channels : List Channel
demo_channels =
    record {
      base = numbered "31111111-1111-1111-1111-111111111111";
      tenant_id = "11111111-1111-1111-1111-111111111111";
      key = "whatsapp";
      name = "WhatsApp";
    }
    ∷ record {
      base = numbered "32222222-2222-2222-2222-222222222222";
      tenant_id = "11111111-1111-1111-1111-111111111111";
      key = "instagram";
      name = "Instagram";
    }
    ∷ record {
      base = numbered "41111111-1111-1111-1111-111111111111";
      tenant_id = "22222222-2222-2222-2222-222222222222";
      key = "whatsapp";
      name = "WhatsApp";
    }
    ∷ record {
      base = numbered "42222222-2222-2222-2222-222222222222";
      tenant_id = "22222222-2222-2222-2222-222222222222";
      key = "instagram";
      name = "Instagram";
    }
    ∷ []

abbrev pub demo_customers : List Customer
demo_customers =
    record {
      base = numbered "51111111-1111-1111-1111-111111111111";
      tenant_id = "11111111-1111-1111-1111-111111111111";
      external_id = "wa-acme-20481";
      name = "Lena Hart";
    }
    ∷ record {
      base = numbered "52222222-2222-2222-2222-222222222222";
      tenant_id = "22222222-2222-2222-2222-222222222222";
      external_id = "ig-globex-88014";
      name = "Rafi Noor";
    }
    ∷ []

abbrev pub demo_conversations : List Conversation
demo_conversations =
    record {
      base = numbered "61111111-1111-1111-1111-111111111111";
      tenant_id = "11111111-1111-1111-1111-111111111111";
      customer_id = "51111111-1111-1111-1111-111111111111";
      channel_id = "31111111-1111-1111-1111-111111111111";
      status = conversation_status_open;
      assigned_agent_id = none;
      customer = none;
      channel = none;
      assigned_agent = none;
      messages = [];
      ticket = none;
    }
    ∷ record {
      base = numbered "62222222-2222-2222-2222-222222222222";
      tenant_id = "22222222-2222-2222-2222-222222222222";
      customer_id = "52222222-2222-2222-2222-222222222222";
      channel_id = "42222222-2222-2222-2222-222222222222";
      status = conversation_status_assigned;
      assigned_agent_id = some "22222222-bbbb-bbbb-bbbb-222222222222";
      customer = none;
      channel = none;
      assigned_agent = none;
      messages = [];
      ticket = none;
    }
    ∷ []

abbrev pub demo_messages : List Message
demo_messages =
    record {
      base = numbered "71111111-1111-1111-1111-111111111111";
      conversation_id = "61111111-1111-1111-1111-111111111111";
      sender_type = sender_type_customer;
      sender_id = none;
      message = "Hi, order ACM-20481 is marked delivered, but nothing has reached my building yet.";
    }
    ∷ record {
      base = numbered "72222222-2222-2222-2222-222222222222";
      conversation_id = "62222222-2222-2222-2222-222222222222";
      sender_type = sender_type_agent;
      sender_id = some "22222222-bbbb-bbbb-bbbb-222222222222";
      message =
          "We traced the billing mismatch and escalated it to our subscription operations team.";
    }
    ∷ []

abbrev pub demo_tickets : List Ticket
demo_tickets =
    record {
      base = numbered "81111111-1111-1111-1111-111111111111";
      tenant_id = "22222222-2222-2222-2222-222222222222";
      conversation_id = "62222222-2222-2222-2222-222222222222";
      title = "Resolve annual plan billing mismatch";
      description =
          "Customer reported that the renewal invoice total does not match the approved subscription quote.";
      status = ticket_status_in_progress;
      priority = ticket_priority_high;
      assigned_agent_id = some "22222222-bbbb-bbbb-bbbb-222222222222";
      assigned_agent = none;
    }
    ∷ []
