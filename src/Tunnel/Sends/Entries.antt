-- ===== src/Tunnel/Sends/Entries.antt =====
-- internal/tunnel/hub.go (`client`): what a change of the map of waiting requests, or of the response in
-- hand, keeps.
use hooklens.Base.{
  ℕ, ◌≡◌, ◌≢◌, true, false, none, some, Bytes, bytes_eq_iff, bytes_key, lookup, insert, delete,
  lookup-insert, lookup-delete, arith,
}
use hooklens.Tunnel.Protocol.{Response}
use hooklens.Tunnel.Sends.{Client}
use hooklens.Tunnel.Sends.Moves.{expects, accepts, spot, Inv}

module _ (n : ℕ) (c : Client) (v : Inv n c) where
  -- An id enters the map: its call expects it, and no response for it is in hand.
  pub insert-Inv :
      (key : Bytes) (i : ℕ)
      → c.closed ≡ false
      → spot (expects key) c i ≡ true
      → ((j : ℕ) (r : Response) → c.hand ≡ some (j, r) → r.req_id ≢ key)
      → Inv n (record c { pending = insert key i c.pending })
  insert-Inv key i opened ready free = record {
    held = v.held;
    within = v.within;
    counted = v.counted;
    issued = v.issued;
    unique = v.unique;
    expected = λ k j e.
        ground (arith, lookup-insert key k i c.pending, bytes_eq_iff key k, v.expected k j);
    accepted = v.accepted;
    taken = λ j r e. ground (
      arith,
      lookup-insert key r.req_id i c.pending,
      bytes_eq_iff key r.req_id,
      free j r e,
      v.taken j r,
    );
    routed = v.routed;
    correlated = v.correlated;
    cleared = λ e. cc;
    closing_once = v.closing_once;
    done_closed = v.done_closed;
  }

  -- Taking an id out of the map, with a response for it in hand or none at all.
  pub delete-Inv : (key : Bytes) → Inv n (record c { pending = delete key c.pending })
  unfolding delete
  delete-Inv key = record {
    held = v.held;
    within = v.within;
    counted = v.counted;
    issued = v.issued;
    unique = v.unique;
    expected = λ k j e. ground (arith, lookup-delete key k c.pending, v.expected k j);
    accepted = v.accepted;
    taken = λ j r e. ground (arith, lookup-delete key r.req_id c.pending, v.taken j r);
    routed = v.routed;
    correlated = v.correlated;
    cleared = λ e. rw (v.cleared e);
    closing_once = v.closing_once;
    done_closed = v.done_closed;
  }

  pub hand-Inv :
      (i : ℕ) (r : Response)
      → spot (accepts r.req_id) c i ≡ true
      → lookup r.req_id c.pending ≡ none
      → Inv n (record c { hand = some (i, r) })
  hand-Inv i r ready gone = record {
    held = v.held;
    within = v.within;
    counted = v.counted;
    issued = v.issued;
    unique = v.unique;
    expected = v.expected;
    accepted = λ j r' e. ground arith;
    taken = λ j r' e. ground arith;
    routed = v.routed;
    correlated = v.correlated;
    cleared = v.cleared;
    closing_once = v.closing_once;
    done_closed = v.done_closed;
  }

  pub empty-Inv : Inv n (record c { hand = none })
  empty-Inv = record {
    held = v.held;
    within = v.within;
    counted = v.counted;
    issued = v.issued;
    unique = v.unique;
    expected = v.expected;
    accepted = λ j r e. cc;
    taken = λ j r e. cc;
    routed = v.routed;
    correlated = v.correlated;
    cleared = v.cleared;
    closing_once = v.closing_once;
    done_closed = v.done_closed;
  }
