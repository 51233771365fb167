-- ===== src/Message/Protocol.antt =====
-- Message::is_valid against the network protocol.
use computer_systems_assignm.Prelude.{◌≢◌}
use computer_systems_assignm.Exceptions.{ok}
use computer_systems_assignm.Message.{MessageType, Message}
use computer_systems_assignm.Message.Validity.{Shape, no_argument, one_argument, shape, Fits}

-- The arguments of the responses: none with OK, the quoted text with FAILED and ERROR. Those of the requests and
-- of DATA are the ones that is_valid tests.
abbrev pub protocol_shape : MessageType → Shape
protocol_shape MessageType.ok = no_argument
protocol_shape MessageType.failed = one_argument
protocol_shape MessageType.error = one_argument
protocol_shape t = shape t

-- NONE is the type of a message that has not been initialized.
abbrev pub Conforms : Message → Type 0
Conforms m = (m.message_type ≢ MessageType.none) × Fits (protocol_shape m.message_type) m.args

-- The types that is_valid has no test for.
abbrev pub IsUntested : MessageType → Type 0
IsUntested MessageType.none = Unit
IsUntested MessageType.ok = Unit
IsUntested MessageType.failed = Unit
IsUntested MessageType.error = Unit
IsUntested _ = ⊥
