-- ===== src/Memory/Client.antt =====
-- internal/memory/memory.go: the client of Billet's RPC. The generated stub is a parameter.
use hairpin.Base.{
  ◌≡◌, refl, true, Option, none, some, List, Bytes, text, bytes_eq, is_empty, if◌then◌else◌, arith,
  ◌↔◌, Bool-cases, inl, inr,
}
use hairpin.Memory.{Memory, Saved, Limit, Reply, rejected, known_kind}

pub data ProtoKind : Type 0 where
  kind_unspecified kind_event kind_fact : ProtoKind

-- protoKind; an unknown kind is an InvalidArgument error, whose message is not modelled.
unfoldable pub proto_kind : Bytes → Option ProtoKind
proto_kind k =
    if is_empty k
    then some kind_unspecified
    else if bytes_eq k (text "event")
    then some kind_event
    else if bytes_eq k (text "fact")
    then some kind_fact
    else none

-- MemoryServiceClient, with the deadline of a call in it.
pub record Stub : Type 0 where
  pub search_memory : Bytes → Limit → Reply (List Memory)
  pub save_memory : Bytes → ProtoKind → Reply Saved

-- billetClient.Search.
unfoldable pub client_search : Stub → Bytes → Limit → Reply (List Memory)
client_search s query limit = s.search_memory query limit

-- billetClient.Save.
unfoldable pub client_save : Stub → Bytes → Bytes → Reply Saved
unfolding proto_kind
client_save s content kind = elim (proto_kind kind) [
  | none ↦ rejected (text "kind")
  | some k ↦ s.save_memory content k
]

-- The tool lets exactly those kinds through that the client can send.
pub known_kind_iff :
    (k : Bytes) → (known_kind k ≡ true) ↔ ((p : ProtoKind) × (proto_kind k ≡ some p))
unfolding known_kind proto_kind
known_kind_iff k = elim (Bool-cases (is_empty k)) [
  | inl e ↦ (λ h. (kind_unspecified, rw e refl), λ h. rw e refl)
  | inr e ↦ elim (Bool-cases (bytes_eq k (text "event"))) [
    | inl f ↦ (λ h. (kind_event, rw e (rw f refl)), λ h. rw e (rw f refl))
    | inr f ↦ elim (Bool-cases (bytes_eq k (text "fact"))) [
      | inl g ↦ (λ h. (kind_fact, rw e (rw f (rw g refl))), λ h. rw e (rw f (rw g refl)))
      | inr g ↦ (λ h. absurd (ground arith), λ (p, h). absurd (ground arith))
    ]
  ]
]
