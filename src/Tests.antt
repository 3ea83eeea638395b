-- ===== src/Tests.antt =====
-- Runs of the model on small inputs, and the theorems applied to them. This file has what the
-- examples share.
mod HeaderExamples
mod TransferExamples
mod StreamExamples
mod ServerExamples
mod ClientExamples
mod ProxyExamples
mod TunnelExamples
mod HttpExamples
mod ExchangeExamples
mod CommandExamples
mod MessagesExamples
mod WsExamples
use jtrpc.Common.{ℕ, ◌^◌, ◌≡◌, refl, List, [], ◌∷◌, Bytes, none, some, Option}
use jtrpc.Io.{WriteAll, WritesAll, Clones, Sink, write}
use jtrpc.Headers.{Pairs}
use jtrpc.Message.{Message}

-- A utils.WriteAll that behaves as documented.
abbrev pub write_once : WriteAll
write_once s b = write s b

pub write_once-WritesAll : WritesAll write_once
write_once-WritesAll s b = refl

-- A utils.CloneSlice that behaves as documented.
abbrev pub same_slice : Bytes → Bytes
same_slice b = b

pub same_slice-Clones : Clones same_slice
same_slice-Clones b = refl

abbrev pub key_a : Bytes
key_a = b'a' ∷ []

abbrev pub key_b : Bytes
key_b = b'b' ∷ []

abbrev pub key_c : Bytes
key_c = b'c' ∷ []

abbrev pub two : Pairs
two = (key_a, b'1' ∷ []) ∷ (key_b, b'2' ∷ b'2' ∷ []) ∷ []

abbrev pub roomy : Sink
roomy = record { out = []; room = 1000 }

-- A message with the byte `x` as its body.
abbrev pub message_of : ℕ → Message
message_of x = record { req_id = 7; flags = 0; body = some (x ∷ []) }
