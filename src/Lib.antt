-- ===== src/Lib.antt =====
-- Programs for the network. The reliable transport protocol RTP of lab2: a sender and a receiver
-- that transfer one file over UDP by go-back-N (mode 0) or selective repeat (mode 1), with a handshake
-- before and after. And the file transfer of lab1: a server that serves its clients one request after
-- the other, and a client that reads commands from a terminal, over TCP. Last the scripts of lab4, which
-- set up a simulation of two TCP flows over one bottleneck, and the greeting of lab0.
--
-- The parts, and where they are modelled:
--
--   Rtp/Checksum  lab2/src/util.c: crc32_for_byte, crc32, compute_checksum
--   Rtp/Seq       lab2/src/util.c: get_random_seqnum, seqnum_add, sqn_dis, seqnum_is_in
--   Rtp/Window    lab2/src/util.c: update_window
--   Rtp/Packet    lab2/src/rtp.h, lab2/src/rtp.c: the packet, send_packet, recv_packet
--   Rtp/Process   what lab2/src/sender.c and lab2/src/receiver.c share: the global sqn, errno, the
--                 packet's buffer, the timeout of the socket, and the loop that awaits a reply
--   Rtp/Sender    lab2/src/sender.c
--   Rtp/Receiver  lab2/src/receiver.c
--   Rtp/Files     lab2/src/util.c: read_file, write_file
--   Rtp/System    the two loops of transfer_data over one network; Rtp/System/Session: the two
--                 programs from end to end
--
--   Ftp/Stream    lab1/ftp_utils.hpp: ssend, srecv, on one end of a connection
--   Ftp/Message   lab1/ftp_utils.hpp, lab1/defs.h: the header, send_post, recv_post
--   Ftp/Files     lab1/ftp_utils.hpp: read_file, write_file, and what is asked of the system
--   Ftp/Server    lab1/ftp_server.cpp: the handlers; Ftp/Server/Main: the table and main
--   Ftp/Client    lab1/ftp_client.cpp: the commands; Ftp/Client/Main: parseline and main
--   Ftp/Exec, Ftp/Talk   the monad of these programs, and what they read and send on a connection
--   Ftp/Server/History   the requests of several clients, in the order in which they are served
--   Ftp/Session   a command of the client and a turn of the server's loop on one connection
--   Dumbbell      lab4/dumbbell-base.cc (Base), lab4/dumbbell.cc (Traced, Log)
--   HelloNetwork  lab0/hellonetwork.cpp
--
-- Common holds the shared names, tests, lists and bit operations; the Tests modules run the code on
-- small inputs.
--
-- The sender cuts the file into packets of PAYLOAD_MAX bytes, numbers them from sqn on, keeps at most
-- a window of them in flight, and sends those again that are not acknowledged when a receive times
-- out. The receiver stores each packet at its place, and acknowledges the next number (mode 0) or the
-- packet's own (mode 1). Both call send_packet and recv_packet of rtp.c, which call the checksum.
--
-- How state and operations correspond: a function of the source has its name here, and a loop is a
-- function of its own; `Sending` and `Receiving` are the local variables of the two transfer_data,
-- `Process` the globals. What recvfrom answers is an argument, a list of events; a function that
-- needs one more event than there are is `blocked`, exit(1) is `exited`, a write behind the end of
-- the receiver's buffer is `overrun`, and else it has `returned`. Datagrams that were sent are
-- collected, the oldest first. What fopen, fread or fwrite, and fclose make of a file is a record. A
-- packet in memory is its bytes in the layout of the packed struct on a little-endian machine, and
-- what stood in a buffer before is arbitrary. Numbers are natural numbers, with the wrap-around of
-- uint32_t and the mask of 31 bits written out. LDEBUG is a Boolean argument.
--
-- In lab1 a function is a state change that returns, is blocked in a system call, has exited, or has
-- done what C++ leaves undefined, as a write behind a buffer. A connection is the bytes that have
-- come, those that were sent, and what the next calls of send and recv do: move some bytes, return
-- 0 or fail; so a theorem holds for every cutting of the stream. The server's state is its globals and
-- its connections by descriptor; the list of the events of epoll_wait drives its loop. The disk, the
-- working directory and the shell are the record `Os` of calls, atoi and printf of a number the record
-- `Numerals`, and what connect makes of an address a list of `Dial`, all parameters.
--
-- A script of lab4 is the list of the calls that it makes of ns-3, with its nodes, wires and addresses
-- as data; its callbacks are functions on the array fct and on the lines of a file.
--
-- Bounds and fuel: the loop that resends runs at most sqn - wbase rounds, which is proved to be enough;
-- the other loops run over a list or over the rounds left of a fixed number. Where a theorem needs it,
-- the numbers of a transfer do not wrap (base + npacket + wsize < 2 ^ 31): the program's start is 0,
-- since get_random_seqnum is INT32_MAX and the handshake adds one, and a file has at most 1436 packets.
--
-- Not modelled: failing calls of sendto and setsockopt, which exit and so cut a run short; files of
-- 2 GB and more, whose size is no int; show_packet and the messages, which only print; a negative
-- window size or mode; an index behind the end of the array of update_window, for which the model
-- changes nothing. Of lab1: exceptions of std::filesystem, SIGPIPE, a path that fills the whole
-- buffer without a zero, and the messages, which only print. Of lab4: what ns-3 does with the calls.
-- The tests, the build trees and the copy of googletest are not the program's own logic.
pub mod Common
pub mod Rtp
pub mod Ftp
pub mod Dumbbell
pub mod HelloNetwork
