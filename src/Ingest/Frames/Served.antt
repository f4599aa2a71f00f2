-- ===== src/Ingest/Frames/Served.antt =====
-- `handleTCPConn` of internal/ingest/syslog.go: what it sends for every stream and whenever the
-- context is done.
use mathlib.Core.Option
use mathlib.Core.Path.{subst}
use worm.Base.{
  ℕ, zero, suc, ◌+◌, ◌≡◌, refl, sym, ◌∙◌, ap, Bool, List, [], ◌∷◌, ◌++◌, Option, none, some, Bytes,
  length, Bool-cases, inl, inr, arith,
}
use worm.Model.{IngestedRecord}
use worm.Ingest.Frames.{
  Peer, syslog_record, Round, ends, skips, sends, is_done, later, play, rounds, sent_before,
  syslog_records, handle_tcp_conn, next_round,
}
use worm.Ingest.Frames.Rounds.{IsPayload, ArePayloads, rounds-Sent}

-- What the records of a connection are: payloads of it, with its addresses.
abbrev pub AreRecords : Peer → List IngestedRecord → Type 0
AreRecords p [] = Unit
AreRecords p (r ∷ rs) =
    IsPayload r.raw_bytes
    × (r.source_ip ≡ p.host)
    × (r.source_port ≡ p.port)
    × (r.metadata ≡ p.listener)
    × AreRecords p rs

syslog_records-AreRecords :
    (p : Peer) (n : ℕ) (ps : List Bytes) → ArePayloads ps → AreRecords p (syslog_records p n ps)
unfolding syslog_records
syslog_records-AreRecords p n [] h = tt
syslog_records-AreRecords p n (payload ∷ ps) h =
    (h.0, refl, refl, refl, syslog_records-AreRecords p (n + 1) ps h.1)

-- For every stream of bytes, and whichever selects find the context done, the loop of a connection
-- ends, and each record that it sends has between 1 byte and 10 MiB and the addresses of the
-- connection.
pub handle_tcp_conn-AreRecords :
    (p : Peer) (ctx : List Bool) (s : Bytes)
    → (rs : List IngestedRecord) × (handle_tcp_conn p ctx s ≡ some rs) × AreRecords p rs
unfolding handle_tcp_conn
handle_tcp_conn-AreRecords p ctx s =
    let (ps, e, all) = rounds-Sent (suc (length s)) ctx s (omega arith) in
    (
      syslog_records p 0 ps,
      ap (Option.map (syslog_records p 0)) e,
      syslog_records-AreRecords p 0 ps all,
    )

-- Where the second run ends, so does the first, with the first of its payloads.
abbrev IsCut : Option (List Bytes) → Option (List Bytes) → Type 0
IsCut o none = Unit
IsCut none (some qs) = ⊥
IsCut (some ps) (some qs) = (more : List Bytes) × (ps ++ more ≡ qs)

nothing-IsCut : (o : Option (List Bytes)) → IsCut (some []) o
nothing-IsCut none = tt
nothing-IsCut (some qs) = (qs, refl)

sent_before-IsCut :
    (payload : Bytes) (o o' : Option (List Bytes))
    → IsCut o o'
    → IsCut (sent_before payload o) (sent_before payload o')
sent_before-IsCut payload o none h = tt
sent_before-IsCut payload none (some qs) h = h
sent_before-IsCut payload (some ps) (some qs) h = (h.0, ap (λ x. payload ∷ x) h.1)

play-IsCut :
    (next next' : List Bool → Bytes → Option (List Bytes)) (ctx : List Bool) (x : Option Round)
    → ((ctx' : List Bool) (rest : Bytes) → IsCut (next ctx' rest) (next' [] rest))
    → IsCut (play next ctx x) (play next' [] x)
play-IsCut next next' ctx none h = tt
play-IsCut next next' ctx (some ends) h = ([], refl)
play-IsCut next next' ctx (some (skips rest)) h = h ctx rest
play-IsCut next next' ctx (some (sends payload last rest)) h = elim (Bool-cases (is_done ctx)) [
  | inl e ↦ rw (play, e) (nothing-IsCut (play next' [] (some (sends payload last rest))))
  | inr e ↦ elim (Bool-cases last) [
    | inl e' ↦ rw (play, e, e') ([], refl)
    | inr e' ↦ rw (play, e, e') (sent_before-IsCut payload _ _ (h (later ctx) rest))
  ]
]

rounds-IsCut : (n : ℕ) (ctx : List Bool) (s : Bytes) → IsCut (rounds n ctx s) (rounds n [] s)
unfolding rounds
rounds-IsCut zero ctx s = tt
rounds-IsCut (suc n) ctx s = elim (Bool-cases (is_done ctx)) [
  | inl e ↦ rw (rounds, e) (nothing-IsCut (rounds (suc n) [] s))
  | inr e ↦
      rw (rounds, e) (play-IsCut (rounds n) (rounds n) (later ctx) (next_round s) (rounds-IsCut n))
]

both_cut :
    (o o' : Option (List Bytes)) (ps qs : List Bytes)
    → o ≡ some ps
    → o' ≡ some qs
    → IsCut o o'
    → (more : List Bytes) × (ps ++ more ≡ qs)
both_cut o o' ps qs e e' h = subst (λ x. IsCut x (some qs)) e (subst (λ x. IsCut o x) e' h)

syslog_records-append :
    (p : Peer) (n : ℕ) (ps qs : List Bytes)
    → syslog_records p n (ps ++ qs) ≡ syslog_records p n ps ++ syslog_records p (n + length ps) qs
unfolding syslog_records
syslog_records-append p n [] qs = ap (λ k. syslog_records p k qs) (omega arith)
syslog_records-append p n (payload ∷ ps) qs =
    ap (λ x. syslog_record p n payload ∷ x)
      (syslog_records-append p (n + 1) ps qs
        ∙ ap (λ k. syslog_records p (n + 1) ps ++ syslog_records p k qs) (omega arith))

-- Wherever the context is done, the loop has sent the first of the records that it sends where the
-- context is never done: only records at the end are missing.
pub handle_tcp_conn_cut :
    (p : Peer) (ctx : List Bool) (s : Bytes)
    → (rs more : List IngestedRecord) × (handle_tcp_conn p ctx s ≡ some rs)
      × (handle_tcp_conn p [] s ≡ some (rs ++ more))
unfolding handle_tcp_conn
handle_tcp_conn_cut p ctx s =
    let (ps, e, all) = rounds-Sent (suc (length s)) ctx s (omega arith) in
    let (qs, e', all') = rounds-Sent (suc (length s)) [] s (omega arith) in
    let (more, h) = both_cut _ _ ps qs e e' (rounds-IsCut (suc (length s)) ctx s) in
    (
      syslog_records p 0 ps,
      syslog_records p (0 + length ps) more,
      ap (Option.map (syslog_records p 0)) e,
      ap (Option.map (syslog_records p 0)) e'
          ∙ ap (λ x. some (syslog_records p 0 x)) (sym h)
          ∙ ap some (syslog_records-append p 0 ps more),
    )
