-- ===== src/Lib.antt =====
-- A verification of the BTA utilities: programs round the control system of the 6m telescope. A
-- client gives commands to the control system over System V message queues and reads its state from a
-- shared memory segment (bta_shdata.c); daemons put the readings of sensors into that segment; a
-- server relays text commands of network clients to an adapter of a CAN bus, and its answers back.
--
-- The files, by the part of the program:
-- - Prelude: the names the others share. Tests on numbers, lists indexed by numbers, 32-bit words and
--   their bytes, decimal and hexadecimal text.
-- - CanRing: BTA_modbusmeteo/olddaemon/CAN/can_io.c. The ring of received frames in shared memory:
--   start_can_io, can_put_buff_frame, can_clean_recv, can_recv_frame and can_send_frame are functions
--   on the record Shm. Fifo is the queue of frames that the ring stands for, Index has lemmas on the
--   ring's indices, Refine the refinement, Stamp a round of the receiving process. Life has the process that
--   fills the ring, its signals and its alarm (start_can_io, can_abort, can_exit); Ending, Alarm
--   and Running follow it to its end.
-- - CanServer: Network_CAN_clientserver/canproto.h and parsecanmsgs.c, and in Commands clientserver.c:
--   the frames that are built, printed and parsed, and the commands of the users. Message, Parse and
--   Answer have the theorems on frames, on parsing and on the way of a command and of an answer.
-- - Acs: bta_print_header/bta_shdata.c. The queues, keys and commands; Segment has the shared memory
--   segment, Passwords the passwords of the access levels; Sending and Session have the theorems on
--   what is sent.
-- - Net: bta_control_net-x86_64/bta_control_net/bta_control_net.c, the relay of memory and commands over
--   the network: the packets of both ends, the handling of a command on the side of the observatory
--   (server_command) and of a data packet on the other (receive_data). Frame has the check sum, Order
--   the order of the queues, Command and Data the two ways.
-- - Meteo: BTA_modbusmeteo/bta_meteo_modbus.c, the reader of the weather station. A call of
--   check_meteo_params recurs on the list of what its polls give. Crc has the table of the check sum,
--   Reading a request and its answer, Kept what no packet changes. Main has the main loop of main.c in
--   the same directory.
-- - Mirtemp: bta_mirtemp/main.c, the daemon of the mirror's temperature: get_mirT, its flags and its
--   main loop; Silence is about a server that gives no answer.
-- - Daemon: daemon.c, the name of a process (readname), with its theorem in Name.
-- - Rotator: p1rotator/stepper.c. move_motor and gotozero on the record Motor (module Moves), and the
--   rounds of stepper_process on the record Follower (Follow); the clock is an interface.
-- - Json: jsonbta/bta_json.c, the requests (Words, Request), and in Print jsonbta/bta_print.c, the
--   document. Pairs and Document read it back, Answer joins a request with its answer. The bytes
--   behind those received are an argument.
-- - Options: p1rotator/parseargs.c, the options of the command line. set_arg is the switch over the
--   types; Parse has the loop of parseargs (Safe its theorem), Subopts get_suboption (Settings its
--   texts, Runs its theorem), Help the lines of showhelp and
--   argsort. What getopt_long gives is a list, qsort a function.
-- - Stellarium: Stellarium_control/main.c, the server for Stellarium: handle_socket as a function that
--   gives its acts (packets and commands), proc_data, setCoords; Goto follows a client's request.
-- - Fits: fits_headers/main.c. quick_select, its loops with Scan (the two searches), Nibble (the parting at
--   the pivot), Pivot, Select and Median as the steps of its theorem, and rm_outliers in Outliers.
--   The values, their comparison and their arithmetic are interfaces.
-- - ClientP2: client-p2/main.c and cmdlnopts.c. move_P2 and moving_thread (Way), get_angle (Angle), the
--   rounds of main (Loop, Ending). Angles are thousandths of an arc second.
-- - OldMeteo: BTA_modbusmeteo/olddaemon/bta_meteo_can.c, the weather daemon of the CAN bus. bus_pass is a pass
--   of its main loop: ask_part the commands to the converters, take_frame a frame. Shown is about
--   the temperature, with Range, Messages about precipitation, Silence about converters that send nothing.
-- - Zernike: wfs_read/zernike.c. convert_Zidx and check_parameters (Numbering), the radial sum of zernfun
--   with the tables of build_factorial and build_rpow for a point (Radial), the changes of the
--   coefficients in Zcompose (Coefficients).
-- - DatFile: wfs_read/readdat.c, the header (get_hdrval, open_dat_file), the numbers of a line
--   (dat_read_next_line), and the calls of main.c until the end of the file; Rows is about rows of
--   numbers, Header about a whole file. A pointer is the text from there on, and the
--   fuel of read_columns is that text's length, of which each round takes at least a byte.
-- A module Tests below each part has runs at concrete inputs and the theorems applied to them.
--
-- What the system calls and the libraries give (msgget, shmget, crypt, the time, the numbers that the
-- library slusarlib reads) is an argument of the functions. Doubles that only pass through are kept as
-- their bytes; the clock of the ring is an interface with the operations that the source uses on it.
-- Loops that are bounded by a count recur on it; the loops that are not (the search for a fresh frame,
-- the repair of a time stamp) recur on fuel: the number of the ring's slots, which the reader's index
-- runs through at most once, for the median the number of the values and, for the repair of a time stamp, whose
-- loop never goes on since the time it compares with is 0, one.
--
-- A pass of a daemon's loop, a call of getopt_long or a round of a server is an entry of a list, with what
-- the system gives in it.
--
-- Not modelled are sockets, threads, files, terminals and printing, the floating-point formulas, and
-- the parts of the repository that no file above names.
pub mod Prelude
pub mod Acs
pub mod CanRing
pub mod CanServer
pub mod Net
pub mod Meteo
pub mod Daemon
pub mod Rotator
pub mod Json
pub mod Options
pub mod Mirtemp
pub mod Stellarium
pub mod Fits
pub mod ClientP2
pub mod OldMeteo
pub mod Zernike
pub mod DatFile
