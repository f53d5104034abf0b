-- ===== src/Relay/Registry/Requests.antt =====
-- No handler but registration changes who holds which name, or a connection's name and token.
use remotecmd_cli.Prelude.{
  ℕ, suc, ◌≡◌, refl, String, Option, none, some, List, arith, ◌==◌, if_cases,
}
use remotecmd_cli.Protocol.{Header}
use remotecmd_cli.Relay.Client.{
  Client, ChunkRoute, start_writer, write_pair, send_header_and_binary,
}
use remotecmd_cli.Relay.State.{Relay, World, set_conn, send_error}
use remotecmd_cli.Relay.Registry.Same.{SameRegistry, same_set_conn, same_send}
use remotecmd_cli.Relay.Forward.{
  Found, target, refused, find_target, handle_execute, execute_at, handle_file_transfer,
  transfer_at, transfer_sent, handle_disconnect, disconnect_at, disconnect_sent, add_pending,
  cleanup_pending, after_forward, route_chunks,
}
use remotecmd_cli.Relay.Chunks.{
  Frame, text_frame, binary_frame, read_error, drop_route, fail_transfer, send_pair, chunk_sent,
  binary_chunk, chunk_at, handle_file_chunk,
}

pair_token :
    (o p : Option String) (head payload : List ℕ) (c : Client)
    → (write_pair o p head payload c).1.token ≡ c.token
unfolding write_pair
pair_token (some e) p head payload c = refl
pair_token none none head payload c = refl
pair_token none (some e) head payload c = refl

pair_name :
    (o p : Option String) (head payload : List ℕ) (c : Client)
    → (write_pair o p head payload c).1.name ≡ c.name
unfolding write_pair
pair_name (some e) p head payload c = refl
pair_name none none head payload c = refl
pair_name none (some e) head payload c = refl

module _ (w : World) (a : Relay) where
  abbrev pub Same : Relay → Type 0
  Same = SameRegistry a

  Same-after_forward :
      (rc : ℕ) (h : Header) (req_id what : String) (o : Option String) (s : Relay)
      → Same s
      → Same (after_forward w rc h req_id what o s)
  unfolding after_forward cleanup_pending
  Same-after_forward rc h req_id what none s p = p
  Same-after_forward rc h req_id what (some e) s p = same_send a w rc _ _ p

  Same-execute_at :
      (rc : ℕ) (h : Header) (f : Found) (s : Relay) → Same s → Same (execute_at w rc h f s)
  unfolding add_pending
  Same-execute_at rc h (refused e) s p = same_send a w rc _ s p
  Same-execute_at rc h (target t) s p =
      Same-after_forward rc h _ _ _ _ (same_send a w t _ (add_pending w rc h s) p)

  pub Same-handle_execute :
      (rc : ℕ) (h : Header) (s : Relay) → Same s → Same (handle_execute w rc h s)
  unfolding handle_execute
  Same-handle_execute rc h s p =
      if_cases Same (h.target == "") _ _ (λ _. same_send a w rc _ s p)
        λ _. Same-execute_at rc h (find_target h s) s p

  Same-route_chunks :
      (rc t : ℕ) (req_id : String) (h : Header) (s : Relay)
      → Same s
      → Same (route_chunks rc t req_id h s)
  unfolding route_chunks set_conn start_writer
  Same-route_chunks rc t req_id h s p =
      (p.0, λ u. ground (arith, p.1 u, p.1 rc, p.1 t), λ u. ground (arith, p.2 u, p.2 rc, p.2 t))

  Same-transfer_sent :
      (rc t : ℕ) (h : Header) (req_id : String) (o : Option String) (s : Relay)
      → Same s
      → Same (transfer_sent w rc t h req_id o s)
  Same-transfer_sent rc t h req_id (some e) s p = Same-after_forward rc h req_id _ (some e) s p
  Same-transfer_sent rc t h req_id none s p =
      if_cases Same h.chunked _ _ (λ _. Same-route_chunks rc t req_id h s p) λ _. p

  Same-transfer_at :
      (rc : ℕ) (h : Header) (f : Found) (s : Relay) → Same s → Same (transfer_at w rc h f s)
  unfolding add_pending
  Same-transfer_at rc h (refused e) s p = same_send a w rc _ s p
  Same-transfer_at rc h (target t) s p =
      Same-transfer_sent rc t h _ _ _ (same_send a w t _ (add_pending w rc h s) p)

  pub Same-handle_file_transfer :
      (rc : ℕ) (h : Header) (s : Relay) → Same s → Same (handle_file_transfer w rc h s)
  unfolding handle_file_transfer
  Same-handle_file_transfer rc h s p =
      if_cases Same (h.target == "") _ _ (λ _. same_send a w rc _ s p)
        λ _. Same-transfer_at rc h (find_target h s) s p

  Same-disconnect_at :
      (rc : ℕ) (h : Header) (f : Found) (s : Relay) → Same s → Same (disconnect_at w rc h f s)
  Same-disconnect_at rc h (refused e) s p = same_send a w rc _ s p
  Same-disconnect_at rc h (target t) s p = sent (send_error w s) _ (same_send a w t _ s p)
    where
      sent : (o : Option String) (s' : Relay) → Same s' → Same (disconnect_sent w rc h o s')
      sent (some e) s' q = same_send a w rc _ s' q
      sent none s' q = same_send a w rc _ s' q

  pub Same-handle_disconnect :
      (rc : ℕ) (h : Header) (s : Relay) → Same s → Same (handle_disconnect w rc h s)
  unfolding handle_disconnect
  Same-handle_disconnect rc h s p =
      if_cases Same (h.target == "") _ _ (λ _. same_send a w rc _ s p)
        λ _. Same-disconnect_at rc h (find_target h s) s p

  Same-drop_route : (rc : ℕ) (id : String) (s : Relay) → Same s → Same (drop_route rc id s)
  unfolding drop_route
  Same-drop_route rc id s p = same_set_conn a rc _ s refl refl p

  Same-fail_transfer :
      (rc : ℕ) (h : Header) (route : ChunkRoute) (e : String) (s : Relay)
      → Same s
      → Same (fail_transfer w rc h route e s)
  unfolding fail_transfer cleanup_pending
  Same-fail_transfer rc h route e s p = same_send a w rc _ _ (Same-drop_route rc h.id s p)

  Same-chunk_sent :
      (rc : ℕ) (h : Header) (route : ChunkRoute) (o : Option String) (s : Relay)
      → Same s
      → Same (chunk_sent w rc h route o s)
  Same-chunk_sent rc h route (some e) s p = Same-fail_transfer rc h route _ s p
  Same-chunk_sent rc h route none s p =
      if_cases Same h.final _ _ (λ _. Same-drop_route rc h.id s p) λ _. p

  Same-send_pair :
      (c : ℕ) (head payload : List ℕ) (s : Relay) → Same s → Same (send_pair w c head payload s).1
  unfolding send_pair send_header_and_binary
  Same-send_pair c head payload s p =
      same_set_conn a c _ (record s { writes = suc (suc s.writes) })
        (ground (
          arith,
          pair_token (w.write_error s.writes) (w.write_error (suc s.writes)) head payload
              (s.conns c),
        ))
        (ground (
          arith,
          pair_name (w.write_error s.writes) (w.write_error (suc s.writes)) head payload
              (s.conns c),
        ))
        p

  Same-binary_chunk :
      (rc : ℕ) (h : Header) (route : ChunkRoute) (next : Frame) (s : Relay)
      → Same s
      → Same (binary_chunk w rc h route next s)
  Same-binary_chunk rc h route (read_error e) s p = Same-fail_transfer rc h route _ s p
  Same-binary_chunk rc h route (text_frame m) s p = p
  Same-binary_chunk rc h route (binary_frame bytes) s p =
      Same-chunk_sent rc h route _ _ (Same-send_pair route.target _ bytes s p)

  Same-chunk_at :
      (rc : ℕ) (h : Header) (next : Frame) (o : Option ChunkRoute) (s : Relay)
      → Same s
      → Same (chunk_at w rc h next o s)
  Same-chunk_at rc h next none s p = p
  Same-chunk_at rc h next (some route) s p =
      if_cases Same h.binary_chunk _ _ (λ _. Same-binary_chunk rc h route next s p)
        λ _. Same-chunk_sent rc h route _ _ (same_send a w route.target _ s p)

  pub Same-handle_file_chunk :
      (rc : ℕ) (h : Header) (next : Frame) (s : Relay)
      → Same s
      → Same (handle_file_chunk w rc h next s)
  unfolding handle_file_chunk
  Same-handle_file_chunk rc h next s p = Same-chunk_at rc h next _ s p
