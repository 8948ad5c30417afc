-- ===== src/Lib.antt =====
-- A verification library for the C programs of SYN-OS (SYN-SOFTWARE/).
--
-- syn-crypter (SYN-SOFTWARE/syn-crypter-src/src) encrypts files in place in four formats. main.c
-- dispatches to one module for each format, which reads the file, calls OpenSSL and writes
-- "<file>.tmp"; main.c then renames that file over the original.
--   Io             the system calls, over a world of files with a schedule of faults. `fopen`,
--                  `fread`, `fwrite`, `fclose`, `malloc`, `remove`, `rename` and each library call
--                  take the next fault, so a statement about every world is one about every way in
--                  which they can fail. Io.Frame, Io.Clean, Io.Refuse, Io.Whole, Io.Steady and
--                  Io.Filled hold the rules for blocks of such calls: which files they leave alone,
--                  how they run where nothing fails, when they cannot succeed, and what they have
--                  written where they succeed among faults.
--   Crypter.Ssl    OpenSSL, a parameter with its documented laws. A negative length passed to an
--                  EVP call is taken as a call that fails.
--   Crypter.Util   syn_crypt.h and syn_crypt_util.c (`looks_encrypted`), and `read_all`, which
--                  stands in every format's file.
--   Crypter.Gcm    the AES-256-GCM calls of syn_crypt_aes.c and syn_crypt_rsa.c.
--   Crypter.Aes, Crypter.Blowfish, Crypter.Rsa, Crypter.Redshirt
--                  `encrypt` and `decrypt` are the functions syn_crypt_<format>_encrypt and
--                  _decrypt; `split_header` and `header_chunks` are the layout that they read and
--                  write. SYN_CRYPT_OK is `done`, every other status a constructor of Io.Status.
--   Crypter.Main   `run_operation`; Crypter.Cli is `run_cli` with `syn_crypt_read_secret`.
-- Memory is not modelled: `free` and the wiping of buffers have no effect here. The interactive mode
-- of syn-crypter draws on a terminal and is not modelled.
--
-- syn-relay (SYN-SOFTWARE/syn-relay-src/src) is one binary with several roles.
--   Cstring        the calls of the C library on strings: `fgets`, `strncmp`, `strstr`, "%s", "%d" and
--                  "%ld"; Cstring.Lines and Cstring.Decimal read back what was printed.
--   Relay.Runtime  the small files under $XDG_RUNTIME_DIR.
--   Relay.NodeState, Relay.AgentState
--                  syn_node_state.c and syn_agent_state.c, an operation for each function.
--   Relay.Json     syn_json_extract.c.
--   Relay.Wire     the replies that cmd_stats_server.c writes and cmd_stats_client.c takes apart.
--   Relay.Apps     syn_apps.c. The loop over the lines of a file runs on fuel, one turn for each
--                  byte, which is enough since each turn takes a byte.
--   Relay.Server   `handle_client` of the server and the request of `cmd_launch`.
-- Sockets, forks and signals are not modelled. The floating point numbers of a STATS reply are the
-- texts that printf makes of them. A reply is taken to come in one piece, and but for that to LIST_APPS
-- (`listed_apps`) to fit the buffer that the client reads it into.
--
-- syn-iso-builder (SYN-SOFTWARE/syn-iso-builder-src/src): IsoBuilder.ScrollMenu is the loop of
-- syn_tui_scrollmenu.c as a machine that takes a key and the size of the screen at each turn.
-- IsoBuilder.Edition is syn_edition.c: the list of the editions and the state of a build. What
-- BUILD.zsh prints and the sizes of files are parameters; IsoBuilder.Edition.Status is the part of
-- BUILD.zsh that prints the status of an LFS edition.
--
-- syn-hum (SYN-SOFTWARE/syn-hum-src/src) turns what the machine does into steps that syn-bar-core
-- plays.
--   Hum.Conf, Hum.Save
--                  syn_hum_conf.c: the reading of hum.conf, the muted members, and the writing of the
--                  file through a file beside it. The text is less than a stream's buffer holds, so
--                  it is `fclose` that writes it, with its fault.
--   Hum.Command    `cmd_set` of main.c with `running_pid` and `bar_refresh`; the signals that are sent
--                  are part of the result. Hum.Command.Settings is what the command promises: the
--                  settings with the muted members as a set, and a change for each request.
--   Hum.Crew       syn_hum_crew.c. The file's time and the clock are parameters.
--   Hum.Line       `syn_hum_steps_line` of syn_hum_map.c, and the line that `daemon_loop` sends. The
--                  text of the volume is a parameter.
-- The sampling of the machine and the mapping of signals to steps work on floating point numbers and
-- are not modelled, nor are the forks of `start` and the texts of the other commands. The names of
-- the styles come from SYN-SOFTWARE/syn-bar-core-src/src/syn_hum_styles.h.
--
-- syn-bar-core (SYN-SOFTWARE/syn-bar-core-src/src) is the daemon behind the bar.
--   Bar.Hum        the reading of a HUM line in syn_bar_hum.c and what it leaves for the voice, over
--                  the C library's `atof`; it reads what Hum.Line prints.
--   Bar.Heard      the ring of the last eight sounds in syn_bar_hum.c; Bar.Heard.Steps has the list
--                  that it stands for.
--   Bar.Titles     main.c: the windows, the active one by the address of its structure, the title and
--                  its watchers, with a step relation on the events of the daemon. A result of `none`
--                  says that freed memory would be read.
--   Bar.Relay      main.c: what the bar shows of the files that Relay.NodeState and Relay.AgentState
--                  keep, and the tones that it plays. The reply of the remote machine is a parameter.
-- The voice, the other modules of the bar and the sockets are not modelled.
--
-- A byte is a number; the theorems that need it below 256 say so. Sizes are natural numbers, with the
-- casts and the sums that can wrap written out (`int_of_size`, `full_header`).
--
-- The other programs under SYN-SOFTWARE, the shell scripts and the ISO profile are not modelled.
-- dislocker-src and syn-surf-wip are copies of other projects.
pub mod Common
pub mod Io
pub mod Crypter
pub mod Cstring
pub mod Relay
pub mod IsoBuilder
pub mod Hum
pub mod Bar
