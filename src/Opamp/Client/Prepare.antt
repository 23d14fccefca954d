-- ===== src/Opamp/Client/Prepare.antt =====
-- The two outcomes of `prepare_message`.
use opentelemetry_python_con.Common.{◌+◌, ◌≡◌, refl, none, some}
use opentelemetry_python_con.Opamp.Proto.{Message, Proto}
use opentelemetry_python_con.Opamp.Client.{Client, Payload, content, prepare_message}

module _ (proto : Proto) where
  open proto use {Description, Config}

  -- the message as it is sent
  abbrev pub numbered :
      Message Description Config → Client Description Config → Message Description Config
  numbered m c = record m { instance_uid = c.instance_uid; sequence_num = c.sequence_num }

  abbrev pub next : Client Description Config → Client Description Config
  next c = record c { sequence_num = c.sequence_num + 1 }

  module _ (payload : Payload Description Config) (c : Client Description Config) where
    pub prepare_message-none :
        content proto payload ≡ none → prepare_message proto payload c ≡ (none, c)
    unfolding prepare_message
    prepare_message-none e = rw (e, prepare_message) refl

    pub prepare_message-some :
        {m : Message Description Config}
        → content proto payload ≡ some m
        → prepare_message proto payload c ≡ (some (proto.encode (numbered m c)), next c)
    unfolding prepare_message
    prepare_message-some e = rw (e, prepare_message) refl
