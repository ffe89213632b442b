-- ===== src/Nodes/Sites.antt =====
-- Where two sites meet when a transformation function (src/main/model/ot/xform) makes one of the
-- operations, or both, a no-op.
use convergence_client_javas.Base.{◌≡◌, refl, sym, ap, ◌∙◌, true, false, ok}
use convergence_client_javas.Operations.{pair}
use convergence_client_javas.Nodes.{NodeKind}
use convergence_client_javas.Nodes.Delivery.{live_at_node, silent_at_node}
use convergence_client_javas.Nodes.Pairs.{Meet}

module _ {D N : Type 0} (kind : NodeKind D N) {s c : D} (a b : N) where
  -- Both are left out.
  pub both_silent :
      (s' c' : D)
      → kind.is_no_op s' ≡ true
      → kind.is_no_op c' ≡ true
      → kind.operation_id s' ≡ kind.operation_id s
      → kind.operation_id c' ≡ kind.operation_id c
      → a ≡ b
      → Meet kind s c a b (ok (pair s' c'))
  both_silent s' c' s_silent c_silent s_id c_id e = record {
    server_op = s';
    client_op = c';
    returned = refl;
    server_id = s_id;
    client_id = c_id;
    meeting = a;
    client_applied = silent_at_node kind c' a c_silent;
    server_applied = silent_at_node kind s' b s_silent ∙ ap ok (sym e);
  }

  -- The server's operation stays, perhaps as another one.
  pub server_stays :
      (s' c' : D)
      → kind.is_no_op s' ≡ false
      → kind.is_no_op c' ≡ true
      → kind.operation_id s' ≡ kind.operation_id s
      → kind.operation_id c' ≡ kind.operation_id c
      → kind.handle s' b ≡ ok a
      → Meet kind s c a b (ok (pair s' c'))
  server_stays s' c' s_live c_silent s_id c_id h = record {
    server_op = s';
    client_op = c';
    returned = refl;
    server_id = s_id;
    client_id = c_id;
    meeting = a;
    client_applied = silent_at_node kind c' a c_silent;
    server_applied = live_at_node kind s' b a s_live h;
  }

  -- The client's operation stays.
  pub client_stays :
      (s' c' : D)
      → kind.is_no_op s' ≡ true
      → kind.is_no_op c' ≡ false
      → kind.operation_id s' ≡ kind.operation_id s
      → kind.operation_id c' ≡ kind.operation_id c
      → kind.handle c' a ≡ ok b
      → Meet kind s c a b (ok (pair s' c'))
  client_stays s' c' s_silent c_live s_id c_id h = record {
    server_op = s';
    client_op = c';
    returned = refl;
    server_id = s_id;
    client_id = c_id;
    meeting = b;
    client_applied = live_at_node kind c' a b c_live h;
    server_applied = silent_at_node kind s' b s_silent;
  }
