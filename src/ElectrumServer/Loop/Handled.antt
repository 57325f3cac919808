-- ===== src/ElectrumServer/Loop/Handled.antt =====
-- What holds of a connection, whatever its client and its indexer do.
use Prim.Native.Char.{Char}
use umbrel_apps.Prelude.{
  ℕ, zero, suc, String, Option, none, some, Bool, true, false, not, ◌&&◌, List, [], ◌∷◌, ◌++◌, ◌≡◌,
  refl, ap, ◌∙◌, inl, inr, is_empty, if◌then◌else◌, trim, All, length, Bool-cases, Option-cases,
}
use umbrel_apps.Config.Settings.{NetworkType}
use umbrel_apps.Pool.Manager.{mentions, has_pending_tx}
use umbrel_apps.ElectrumServer.Ingest.{Bitcoin}
use umbrel_apps.ElectrumServer.Lines.{
  Bytes, from_utf8, trim_returns, is_broadcast_line, pop_client_line, pop_lines,
}
use umbrel_apps.ElectrumServer.Lines.Popped.{complete_lines, incomplete_line, length-lines_from}
use umbrel_apps.ElectrumServer.Lines.Order.{in_order, pop-some, pop_lines-in_order}
use umbrel_apps.ElectrumServer.Answers.{Outside, Connection}
use umbrel_apps.ElectrumServer.Answers.Calm.{NotBroadcast}
use umbrel_apps.ElectrumServer.Process.{process_client_line}
use umbrel_apps.ElectrumServer.Process.Answered.{process_client_line-Answered}
use umbrel_apps.ElectrumServer.Loop.{
  Event, read, changed, unless_stale, clear_stale, notify, alive_line, process_lines, handle_event,
  handle_connection,
}

-- Nothing waits to be written, and no broadcast went to the indexer.
pub record IsLocal (c : Connection) : Type 0 where
  pub deferred : c.session.deferred_indexer_out ≡ []
  pub forwarded : All NotBroadcast c.forwarded

if-IsLocal : (b : Bool) (c d : Connection) → IsLocal c → IsLocal d → IsLocal (if b then c else d)
if-IsLocal true c d p q = p
if-IsLocal false c d p q = q

if_first-IsLocal :
    (b : Bool) (x y : Connection × Bytes)
    → IsLocal x.0
    → IsLocal y.0
    → IsLocal (if b then x else y).0
if_first-IsLocal true x y p q = p
if_first-IsLocal false x y p q = q

module _ (o : Outside) (bt : Bitcoin) (network : NetworkType) (source_label url : String) where
  process_client_line-IsLocal :
      (line : String) (c : Connection)
      → IsLocal c
      → IsLocal (process_client_line o bt network source_label url line c)
  process_client_line-IsLocal line c h = elim (Bool-cases (is_empty (trim line))) [
    | inl y ↦ unfold process_client_line in rw y h
    | inr n ↦
        (let a = process_client_line-Answered o bt network source_label url line c h.deferred n in
          record { deferred = a.deferred ∙ h.deferred; forwarded = a.local h.forwarded })
  ]

  alive_line-IsLocal :
      (line : String) (c : Connection)
      → IsLocal c
      → IsLocal (alive_line o bt network source_label url line c)
  alive_line-IsLocal line c h = if-IsLocal c.panicked c _ h (process_client_line-IsLocal line c h)

  process_lines-IsLocal :
      (fuel : ℕ) (buf : Bytes) (c : Connection)
      → IsLocal c
      → IsLocal (process_lines o bt network source_label url fuel buf c).0
  unfolding process_lines
  process_lines-IsLocal zero buf c h = h
  process_lines-IsLocal (suc fuel) buf c h = elim (Option-cases (pop_client_line o.serde buf)) [
    | inl e ↦ rw (e, process_lines) h
    | inr (((bytes, line), rest), e) ↦
        rw (e, process_lines)
          (process_lines-IsLocal fuel rest (alive_line o bt network source_label url line c)
            (alive_line-IsLocal line c h))
  ]

  unless_stale-IsLocal :
      (txid : Option String) (c : Connection) → IsLocal c → IsLocal (unless_stale txid c)
  unfolding unless_stale
  unless_stale-IsLocal none c h = h
  unless_stale-IsLocal (some txid) c h =
      if-IsLocal (has_pending_tx txid c.pool) c _ h
        (record { deferred = h.deferred; forwarded = h.forwarded })

  clear_stale-IsLocal : (c : Connection) → IsLocal c → IsLocal (clear_stale c)
  unfolding clear_stale
  clear_stale-IsLocal c h = unless_stale-IsLocal c.session.recent_broadcast_txid c h

  notify-IsLocal : (sh : String) (c : Connection) → IsLocal c → IsLocal (notify o sh c)
  unfolding notify
  notify-IsLocal sh c h =
      if-IsLocal (mentions (clear_stale c).session.subscribed_scripthashes sh) _ (clear_stale c)
        (let k = clear_stale-IsLocal c h in
          record { deferred = k.deferred; forwarded = k.forwarded })
        (clear_stale-IsLocal c h)

  handle_event-IsLocal :
      (e : Event) (c : Connection) (buf : Bytes)
      → IsLocal c
      → IsLocal (handle_event o bt network source_label url e c buf).1.0
  unfolding handle_event
  handle_event-IsLocal (read []) c buf h = h
  handle_event-IsLocal (read (b ∷ bs)) c buf h = process_lines-IsLocal _ (buf ++ (b ∷ bs)) c h
  handle_event-IsLocal (changed sh) c buf h = notify-IsLocal sh c h

  -- A broadcast never goes to the indexer: whatever a client sends, in whatever pieces, and whatever
  -- the indexer and the pool do meanwhile, no request that a connection forwards is a broadcast.
  pub handle_connection-IsLocal :
      (es : List Event) (c : Connection) (buf : Bytes)
      → IsLocal c
      → IsLocal (handle_connection o bt network source_label url es c buf).0
  unfolding handle_connection
  handle_connection-IsLocal [] c buf h = h
  handle_connection-IsLocal (e ∷ es) c buf h =
      let (goes_on, (d, buf')) = handle_event o bt network source_label url e c buf in
      let k = handle_event-IsLocal e c buf h in
      if_first-IsLocal (goes_on && not d.panicked)
        (handle_connection o bt network source_label url es d buf') (d, buf')
        (handle_connection-IsLocal es d buf' k) k

  -- The lines, one after the other.
  abbrev pub handle_lines : List Bytes → Connection → Connection
  handle_lines [] c = c
  handle_lines (l ∷ ls) c =
      handle_lines ls (alive_line o bt network source_label url (from_utf8 (trim_returns l)) c)

  process_lines-pop_lines :
      (fuel : ℕ) (buf : Bytes) (c : Connection)
      → process_lines o bt network source_label url fuel buf c
        ≡ (handle_lines (pop_lines o.serde fuel buf).0 c, (pop_lines o.serde fuel buf).1)
  unfolding process_lines pop_lines
  process_lines-pop_lines zero buf c = refl
  process_lines-pop_lines (suc fuel) buf c = elim (Option-cases (pop_client_line o.serde buf)) [
    | inl e ↦ rw (e, process_lines, pop_lines) refl
    | inr (((bytes, line), rest), e) ↦
        (let (_, _, _, t) = pop-some o.serde buf bytes rest line e in
          rw (e, process_lines, pop_lines)
            (process_lines-pop_lines fuel rest (alive_line o bt network source_label url line c)
              ∙ ap
                  (λ s. (
                    handle_lines (pop_lines o.serde fuel rest).0
                        (alive_line o bt network source_label url s c),
                    (pop_lines o.serde fuel rest).1,
                  ))
                  t))
  ]

  -- When bytes are read, every complete line of the buffer is handled exactly once, the broadcasts before
  -- the others and else in the order of arrival, and what has no newline yet stays in the buffer.
  pub handle_event-in_order :
      (b : Char) (bs buf : Bytes) (c : Connection)
      → handle_event o bt network source_label url (read (b ∷ bs)) c buf ≡ (
        true,
        (
          handle_lines (in_order (is_broadcast_line o.serde) (complete_lines (buf ++ (b ∷ bs)))) c,
          incomplete_line (buf ++ (b ∷ bs)),
        ),
      )
  unfolding handle_event
  handle_event-in_order b bs buf c =
      let all = buf ++ (b ∷ bs) in
      let popped = pop_lines-in_order o.serde (length all) all (length-lines_from [] all) in
      ap (λ r. (true, r))
        (process_lines-pop_lines (length all) all c
          ∙ ap (λ (p : List Bytes × Bytes). (handle_lines p.0 c, p.1)) popped)
