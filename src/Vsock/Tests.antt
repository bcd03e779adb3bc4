-- ===== src/Vsock/Tests.antt =====
-- Sessions on concrete bytes, and the theorems at inputs that meet their hypotheses.
use microbe.Base.{
  suc, err, length, ◌+◌, ◌≡◌, refl, List, [], ◌∷◌, ◌++◌, Text, codes, ok, pos, negsuc, true, false,
  has_prefix, arith,
}
use microbe.Vsock.Frame.{
  unexpected_eof, frame_stdout, write_frame, read_frame, read_full, uint32, read_payload, read_exit,
  buffer,
}
use microbe.Vsock.Agent.{
  Output, stdout_chunk, stderr_chunk, agent_write_frame, agent_read_frame, exit_payload, pump_input,
  send_outputs,
}
use microbe.Vsock.Serving.{
  Header, tty_inputs, pipe_inputs, finished, hanging, opened, Guest, send_chunks, handle_conn,
}
use microbe.Vsock.Served.{Leaves, handle_conn-Leaves}
use microbe.Vsock.Dial.{handshake, read_line, read_line_from}
use microbe.Vsock.Session.{pump_stdin, exit_status, ended, run_session}
use microbe.Vsock.RoundTrip.{
  read_frame-write_frame, agent_read_frame_of_read_frame, agent_write_frame-eq-write_frame,
  read_exit-exit_payload,
}
use microbe.Vsock.Cut.{run_session-cut}
use microbe.Vsock.Delivery.{typed, delivered, pump_input-pump_stdin, run_session-send_outputs}
use microbe.Vsock.Ends.{read_line-append, handshake_inv, IsLine}

abbrev hello : List Output
hello = stdout_chunk (codes "hi") ∷ stderr_chunk (codes "oh") ∷ stdout_chunk (codes "!") ∷ []

hello_session :
    run_session (send_outputs buffer [] hello (negsuc 0))
    ≡ record { stdout = codes "hi!"; stderr = codes "oh"; outcome = exit_status (negsuc 0) }
hello_session = run_session-send_outputs hello (negsuc 0) (omega arith) (omega arith)

-- Two commands and an empty read between them.
abbrev lines : List Text
lines = codes "ls" ∷ [] ∷ codes "pwd" ∷ []

chunks_delivered :
    (sent : Text) × (sent ≡ pump_stdin buffer [] lines)
    × (pipe_inputs (pump_input (suc (length sent)) sent) ≡ delivered lines)
    × (tty_inputs (pump_input (suc (length sent)) sent) ≡ typed lines)
chunks_delivered = pump_input-pump_stdin lines (omega arith)

ok_reply : read_line (codes "OK 5" ++ 10 ∷ codes "x") ≡ ok (codes "OK 5", codes "x")
ok_reply = read_line-append (codes "OK 5") (codes "x") (omega arith) (omega arith)

frame_example :
    (sent : Text) × (write_frame buffer [] frame_stdout (codes "hi") ≡ ok sent)
    × (read_frame (sent ++ codes "x")
        ≡ ok (record { typ = frame_stdout; payload = codes "hi" }, codes "x"))
    × (agent_read_frame (sent ++ codes "x")
        ≡ ok (record { typ = frame_stdout; payload = codes "hi" }, codes "x"))
frame_example = read_frame-write_frame frame_stdout (codes "hi") (codes "x") (omega arith)

abbrev hi_frame : Text
hi_frame = 1 ∷ 0 ∷ 0 ∷ 0 ∷ 2 ∷ codes "hi"

hi_frame_read : read_frame hi_frame ≡ ok (record { typ = 1; payload = codes "hi" }, [])
unfolding read_frame read_full read_payload uint32
hi_frame_read = refl

agent_example : agent_read_frame hi_frame ≡ ok (record { typ = 1; payload = codes "hi" }, [])
agent_example =
    agent_read_frame_of_read_frame hi_frame [] (record { typ = 1; payload = codes "hi" })
      hi_frame_read

same_bytes : agent_write_frame buffer [] 1 (codes "hi") ≡ write_frame buffer [] 1 (codes "hi")
same_bytes = agent_write_frame-eq-write_frame buffer [] 1 (codes "hi")

exit_example : read_exit (exit_payload (negsuc 0)) ≡ ok (negsuc 0)
exit_example = read_exit-exit_payload (negsuc 0) (omega arith)

half_frame : read_frame (1 ∷ 0 ∷ 0 ∷ []) ≡ err unexpected_eof
unfolding read_frame read_full
half_frame = refl

cut_session :
    run_session (send_chunks buffer [] hello ++ 1 ∷ 0 ∷ 0 ∷ [])
    ≡ record { stdout = codes "hi!"; stderr = codes "oh"; outcome = ended unexpected_eof }
cut_session = run_session-cut hello (1 ∷ 0 ∷ 0 ∷ []) unexpected_eof (omega arith) half_frame

ok_handshake : handshake (codes "OK 5" ++ 10 ∷ codes "x") ≡ ok (codes "x")
unfolding handshake read_line read_line_from has_prefix
ok_handshake = refl

handshake_example :
    (line : Text) × (codes "OK 5" ++ 10 ∷ codes "x" ≡ line ++ 10 ∷ codes "x")
    × IsLine line
    × (has_prefix line (codes "OK ") ≡ true)
handshake_example = handshake_inv (codes "OK 5" ++ 10 ∷ codes "x") (codes "x") ok_handshake

-- A guest that starts `ls -l` on pipes, and has no terminals left.
abbrev listing : Header
listing = record { argv = codes "ls" ∷ codes "-l" ∷ []; tty = false; cols = 0; rows = 0 }

abbrev small_guest : Guest
small_guest = record {
  unmarshal = λ b. ok listing;
  open_file = λ es path. err (codes "no such device");
  unlock = λ es m. ok 0;
  pty_number = λ es m. ok 4;
  start_tty = λ es h is. err (codes "not found");
  start_pipe = λ es h is. ok (finished hello (pos 2));
}

-- A guest with terminals, which has not the command.
abbrev terminal_guest : Guest
terminal_guest = record {
  unmarshal = λ b. ok (record { argv = codes "top" ∷ []; tty = true; cols = 80; rows = 24 });
  open_file = λ es path. ok (length es + 7);
  unlock = λ es m. ok 0;
  pty_number = λ es m. ok 4;
  start_tty = λ es h is. err (codes "not found");
  start_pipe = λ es h is. ok (hanging hello);
}

files_closed_example : Leaves (3 ∷ []) (
    handle_conn buffer terminal_guest 7 hi_frame
      (record { events = opened 7 ∷ opened 3 ∷ []; conn = [] }))
files_closed_example = handle_conn-Leaves buffer terminal_guest 7 hi_frame (opened 3 ∷ []) []
