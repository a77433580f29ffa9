-- ===== src/Net/Epoller/Interest.antt =====
-- What the system watches, by the log of the calls of `epoll_ctl`.
use mathlib.Core.Path.{subst}
use my_moduo.Base.{
  ℕ, ◌≡◌, sym, ap, ◌∙◌, ◌≢◌, ◌⊎◌, inl, inr, List, [], ◌∷◌, Option, none, some, arith, ◌==◌,
  if◌then◌else◌, Bool-cases,
}
use my_moduo.Net.Channel.{ChannelIndex, new, added, deleted, Events, Change, change_events}
use my_moduo.Net.Epoller.{
  Epoller, Ctl, ctl_add, ctl_mod, ctl_del, put, update_channel, remove_channel, change,
}

-- The events that the system watches a descriptor for, after the calls of the log.
unfoldable pub watched : List Ctl → ℕ → Option Events
watched [] n = none
watched (ctl_add fd e ∷ cs) n = if n == fd then some e else watched cs n
watched (ctl_mod fd e ∷ cs) n = if n == fd then some e else watched cs n
watched (ctl_del fd ∷ cs) n = if n == fd then none else watched cs n

-- No call of the log is refused: `EPOLL_CTL_ADD` wants a descriptor that is not watched, the other
-- two one that is.
unfoldable pub Accepted : List Ctl → Type 0
Accepted [] = Unit {0}
Accepted (ctl_add fd e ∷ cs) = (watched cs fd ≡ none) × Accepted cs
Accepted (ctl_mod fd e ∷ cs) = (watched cs fd ≢ none) × Accepted cs
Accepted (ctl_del fd ∷ cs) = (watched cs fd ≢ none) × Accepted cs

-- How index, table and system go together for one channel.
abbrev pub Agrees : ChannelIndex → ℕ → Events → Option ℕ → Option Events → Type 0
Agrees new i e entry w = (entry ≡ none) × (w ≡ none)
Agrees added i e entry w = (entry ≡ some i) × (w ≡ some e)
Agrees deleted i e entry w = ((entry ≡ none) ⊎ (entry ≡ some i)) × (w ≡ none)

abbrev pub AgreesAt : Epoller → ℕ → Type 0
AgreesAt p i =
    Agrees (p.store i).index i (p.store i).events (p.channels (p.store i).fd)
      (watched p.ctls (p.store i).fd)

-- The store changes at one channel only, which keeps its descriptor, and table and system change at
-- that descriptor only.
pub record Keeps (j : ℕ) (p q : Epoller) : Type 0 where
  pub others : (i : ℕ) → i ≢ j → q.store i ≡ p.store i
  pub same_fd : (q.store j).fd ≡ (p.store j).fd
  pub entries : (n : ℕ) → n ≢ (p.store j).fd → q.channels n ≡ p.channels n
  pub watches : (n : ℕ) → n ≢ (p.store j).fd → watched q.ctls n ≡ watched p.ctls n

-- What a step at channel `j` is to do.
abbrev pub Good : ℕ → Epoller → Epoller → Type 0
Good j p q = Keeps j p q × AgreesAt q j × Accepted q.ctls

-- What `updateChannel` relies on: the events may have changed.
abbrev pub Ready : ChannelIndex → ℕ → Option ℕ → Option Events → Type 0
Ready new i entry w = (entry ≡ none) × (w ≡ none)
Ready added i entry w = (entry ≡ some i) × (w ≢ none)
Ready deleted i entry w = ((entry ≡ none) ⊎ (entry ≡ some i)) × (w ≡ none)

update_channel-Good :
    (x : ChannelIndex) (j : ℕ) (p : Epoller) {q : Epoller}
    → (p.store j).index ≡ x
    → Ready x j (p.channels (p.store j).fd) (watched p.ctls (p.store j).fd)
    → Accepted p.ctls
    → update_channel j p ≡ some q
    → Good j p q
unfolding update_channel watched Accepted
update_channel-Good new j p {q} r h a e = (
  record {
    others = λ i n. ground arith;
    same_fd = ground arith;
    entries = λ n k. ground arith;
    watches = λ n k. ground arith;
  },
  ground arith,
  ground arith,
)
update_channel-Good added j p {q} r h a e = (
  record {
    others = λ i n. ground arith;
    same_fd = ground arith;
    entries = λ n k. ground arith;
    watches = λ n k. ground arith;
  },
  ground arith,
  ground arith,
)
update_channel-Good deleted j p {q} r h a e = (
  record {
    others = λ i n. ground arith;
    same_fd = ground arith;
    entries = λ n k. ground arith;
    watches = λ n k. ground arith;
  },
  ground arith,
  ground arith,
)

pub Agrees-Ready :
    (x : ChannelIndex) (i : ℕ) (e : Events) (entry : Option ℕ) (w : Option Events)
    → Agrees x i e entry w
    → Ready x i entry w
Agrees-Ready new i e entry w h = h
Agrees-Ready added i e entry w h = (h.0, λ k. ground (arith, h.1))
Agrees-Ready deleted i e entry w h = h

pub change-Good :
    (j : ℕ) (c : Change) (p : Epoller) {q : Epoller}
    → AgreesAt p j
    → Accepted p.ctls
    → change j c p ≡ some q
    → Good j p q
unfolding change
change-Good j c p {q} h a e =
    let p' = record p {
      store = put j (record (p.store j) { events = change_events c (p.store j).events }) p.store;
    } in
    let r = Agrees-Ready _ _ _ _ _ h in
    let (k, at_j, ok) =
      update_channel-Good (p.store j).index j p' (ground arith) (ground (arith, r)) a e in
    (
      record {
        others = λ i n. ground (arith, k.others i n);
        same_fd = ground (arith, k.same_fd);
        entries = λ n m. ground (arith, k.entries n);
        watches = λ n m. ground (arith, k.watches n);
      },
      at_j,
      ok,
    )

pub remove_channel-Good :
    (x : ChannelIndex) (j : ℕ) (p : Epoller) {q : Epoller}
    → (p.store j).index ≡ x
    → Ready x j (p.channels (p.store j).fd) (watched p.ctls (p.store j).fd)
    → Accepted p.ctls
    → remove_channel j p ≡ some q
    → Good j p q
unfolding remove_channel watched Accepted
remove_channel-Good new j p r h a e = absurd (ground arith)
remove_channel-Good _ j p {q} r h a e = (
  record {
    others = λ i n. ground arith;
    same_fd = ground arith;
    entries = λ n k. ground arith;
    watches = λ n k. ground arith;
  },
  ground arith,
  ground arith,
)

-- Every channel of a loop has a descriptor of its own.
abbrev pub Distinct : Epoller → Type 0
Distinct p = (i j : ℕ) → (p.store i).fd ≡ (p.store j).fd → i ≡ j

pub record IsWatching (p : Epoller) : Type 0 where
  pub distinct : Distinct p
  pub agrees : (i : ℕ) → AgreesAt p i
  pub accepted : Accepted p.ctls

AgreesAt-other : (i j : ℕ) {p q : Epoller} → IsWatching p → Keeps j p q → i ≢ j → AgreesAt q i
AgreesAt-other i j {p} {q} h k n =
    let other : (p.store i).fd ≢ (p.store j).fd = λ e. n (h.distinct i j e) in
    rw (k.others i n, k.entries _ other, k.watches _ other) (h.agrees i)

fd-Keeps : (i j : ℕ) {p q : Epoller} → Keeps j p q → (q.store i).fd ≡ (p.store i).fd
fd-Keeps i j {p} {q} k = elim (Bool-cases (i == j)) [
  | inl e ↦ ground (arith, k.same_fd)
  | inr n ↦ ap (λ c. c.fd) (k.others i (λ e. ground arith))
]

pub Good-IsWatching : (j : ℕ) (p q : Epoller) → IsWatching p → Good j p q → IsWatching q
Good-IsWatching j p q h (k, at_j, ok) = record {
  distinct = λ a b e. h.distinct a b (sym (fd-Keeps a j k) ∙ e ∙ fd-Keeps b j k);
  agrees = λ i. elim (Bool-cases (i == j)) [
    | inl e ↦ let same : i ≡ j = ground arith in subst (AgreesAt q) (sym same) at_j
    | inr n ↦ AgreesAt-other i j h k (λ e. ground arith)
  ];
  accepted = ok;
}
