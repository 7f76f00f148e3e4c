-- ===== src/Fs/Server/Tests.antt =====
-- The properties of tp-parte4/fs/serv.c on the server of Sample.
use sistemas_operativos_2c.Common.{
  ℕ, ◌≡◌, refl, none, some, List, [], ◌∷◌, arith, ◌==◌, if◌then◌else◌,
}
use sistemas_operativos_2c.Errors.{inval, ok, err}
use sistemas_operativos_2c.Fs.Content.Refinement.{answers, after_all}
use sistemas_operativos_2c.Fs.Server.{
  Server, empty_fd, serve_init_from, serve_init, openfile_alloc, openfile_lookup,
}
use sistemas_operativos_2c.Fs.Server.Handlers.{handler, serve_turn}
use sistemas_operativos_2c.Fs.Server.Keeps.{IsTable}
use sistemas_operativos_2c.Fs.Server.Table.{
  initial, turn, Reachable-IsTable, next_fileid, shared, openfile_alloc-openfile_lookup,
}
use sistemas_operativos_2c.Fs.Server.Requests.{
  IsOpen, Request, next, put_next, asked_all, placed, end_of, Fit,
}
use sistemas_operativos_2c.Fs.Server.Seek.{serve_requests-Call}
use sistemas_operativos_2c.Fs.Server.Sample.{
  server, server-IsTable, busy, blk, contents, opened, opened-IsOpen,
}

-- serve_init, and then a request with an unknown code.
abbrev begun : Server
begun = elim (serve_init server) [ none ↦ server | some (u, s) ↦ s ]

start : serve_init server ≡ some (tt, begun)
unfolding serve_init serve_init_from
start = refl

refused :
    serve_turn 9 7 begun ≡ some (some (record { value = err inval; pg = none; perm = 7 }), begun)
unfolding serve_turn handler
refused = refl

Reachable-IsTable_example : IsTable begun
Reachable-IsTable_example = Reachable-IsTable begun (
    turn 9 7 (some (record { value = err inval; pg = none; perm = 7 })) begun begun
      (initial server begun start) refused)

openfile_alloc-openfile_lookup_example :
    (s' : Server) × (openfile_alloc server ≡ some (ok (1, next_fileid 1 server), s'))
    × (s'.o_fd 1 ≡ empty_fd)
    × (openfile_lookup (next_fileid 1 server) (shared 1 s') ≡ some (ok 1, shared 1 s'))
    × (openfile_lookup (server.opentab 1).o_fileid (shared 1 s') ≡ some (err inval, shared 1 s'))
    × ((j : ℕ)
        → s'.opentab j ≡ (
            if 1 == j
            then record (server.opentab 1) { o_fileid = next_fileid 1 server }
            else server.opentab j))
openfile_alloc-openfile_lookup_example =
    openfile_alloc-openfile_lookup 1 server (omega arith) busy (omega arith) refl server-IsTable
      (omega arith)

-- The last read reaches the end of the file.
abbrev requests : List Request
requests = next 4090 ∷ put_next (10 ∷ 20 ∷ 30 ∷ []) ∷ next 100 ∷ []

requests-Fit : Fit 4096 0 requests
requests-Fit = omega arith

serve_requests-Call_example :
    (s' : Server) × (asked_all 1025 requests opened
      ≡ some (answers contents (placed 4096 0 requests), s'))
    × IsOpen 1025
        (1, 2)
        1
        blk
        (after_all contents (placed 4096 0 requests))
        (end_of 4096 0 requests)
        s'
serve_requests-Call_example =
    serve_requests-Call (omega arith) contents 0 requests opened opened-IsOpen requests-Fit
