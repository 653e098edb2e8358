-- ===== src/Lib.antt =====
-- The programs of src/utils that load and set up a board, as definitions that run and theorems on them.
-- The repository holds many small utilities; src/utils/regiloader carries most of the logic. It is modelled
-- as a whole, with the converter of the boot loader's environment and the tools around the screen.
--
--   Loader  src/utils/regiloader/regiloader.cpp, asio_helper.cpp: the program that talks to a board over a
--           serial console and carries out a recipe of actions. Loader/Asio models AsioIface, a read with a
--           time limit; State the global state (SysState, SysInfo, ParseTimeoutFail) and what the world
--           holds; Info the rules by which the answers of a board are read; Console the functions
--           SkipLines, ParseUntil, SendCmd and those on them; Boot the actions that load a kernel; Install
--           those that install parts of the system; Register the registration of a board; Recipe DoAction,
--           ExecuteRecipe and the loops of main; Startup the arguments, the file with the counters, and
--           what main publishes. Frame shows what the actions keep, action by action.
--   Ymodem  src/utils/regiloader/ymodem.cpp, ymodem.hpp: SendFile sends a file over a serial port to the
--           boot loader. Crc models the class Crc, Frames the classes Packet and Sequence and the frames,
--           Transfer the methods IsResponse, WaitForResponse, SendClosingPkt and SendFile. The port of
--           boost::asio is the interface Serial; what its documentation promises is the record Wire.
--   Tftp    src/utils/regiloader/tftp.cpp, tftp.hpp: a server that hands files to the board. Buffer and
--           Packets model the packet classes, Session the methods of the class Session, Handlers its
--           handlers for timers, writes and reads, Server the class Server. Download puts them together:
--           a datagram comes in, the handlers run, the server polls the session; Server/Alone and
--           Server/Whole are about the loop Run with its one session.
--   Sdp     src/utils/regiloader/sdp.cpp, sdp.hpp: the serial download protocol of the processor's ROM.
--           Packet models AddArr and GetArr, Commands the packet classes, Link the method Send with its
--           handlers and tries, Image the class ImxFirmware.
--   UbootConf  src/utils/regisetup/uboot_conf/uboot_conf.cpp: BinToText and TextToBin between the text of
--           an environment and its binary image, with the filter ApplyFilter and main.
--   Ftdi    src/utils/regitest/ttyusb_test/ttyusb_test.cpp: the fields of the configuration of a USB chip,
--           and EncodeEEPROM and DecodeEEPROM between them and the memory of the chip.
--   Rfb     src/utils/regirfb/framebuf.cpp, framebuf.hpp, main.cpp, ipc.cpp: a web server that shows the screen
--           of the board. Color models RGBQuad, the palette and the loops in assembler, Bitmap the headers of
--           a bitmap, Frames the class Screen with its two frames, Requests the handlers of the requests and
--           the messages. Requests/Serving puts requests, the task that prepares a frame and the changes of
--           the screen together, each as a single step; Requests/Refinement has the abstract server.
--   Splash  src/utils/regisplash/main.cpp: SetVideoMode, and PrintBMP, which draws a bitmap into the memory of
--           the screen, row by row.
--   Base    helpers: Boolean tests, lists over the native numbers, bitwise exclusive or.
--
-- Loader uses the others as the program does: an action that sends an image calls the serial download
-- protocol of Sdp, and Startup builds the table of files by which the server of Tftp answers. A transfer by
-- SendFile and a run of the server stand in Loader as a call in its log, the result of the run with what
-- the world brings. A program of Loader is an Action, a function from a World to a Result: a value and the
-- next world, or a crash, or a wait for something that the world does not bring. The world holds the
-- globals, the turns of the port and the timer, the answers of the operator, the results of the server's
-- runs, the attempts of the download protocol, the files, and the log of what the program asked for.
--
-- Bytes and machine words are natural numbers with their wrap-around written out. State is passed
-- explicitly; the calls of boost::asio are a log, and its answers come in as arguments, as events or as
-- the script of a port. Files are functions from a path to the contents. What lies in memory that the
-- code reads but never sets is an argument (Junk, old, after). boost::regex_match, the parser of JSON,
-- the clock, the printing of sizes and the checksum of zlib are parameters. What the video driver tells, and
-- what stands in the memory of the screen, are arguments; a write out of that memory, or out of the initial
-- frame of SendFile, is a result of its own.
--
-- Bounds and fuel: WaitForResponse has its 255 rounds. The loop of SendFile runs on fuel of one more round
-- than the file has bytes, and a round of a transfer that goes on sends at least one byte. The loop of
-- InitDCDListOfCommands runs on fuel of as many turns as the length has bytes, and each turn moves by four
-- bytes at least. The loops over events and tries run over the list of what the world brings. A read of
-- the console takes a turn of the world, so the loops of ParseUntil and SkipLines run on fuel of the turns;
-- the loop over the text of a recipe on fuel of its length, of which each round takes two characters at
-- least; the loop of main over the boards on the operator's answers. BinToText and TextToBin run on fuel
-- of the bytes, of which every round takes one at least. BindToFbDev makes its 29 tries; the loops over the
-- pixels and the rows run over their number.
--
-- Not modelled: what is printed for the operator; debug_backtrace.cpp, which calls the C library for
-- debugging; the search of the USB bus in ttyusb_test.cpp, which calls libusb and libftdi; ParseArguments and
-- main of regirfb, which call boost and the server webapp; the moments inside a step of regirfb's task, and
-- what webapp does with the frame behind SetBody; the other utilities of src/utils (imx-fcb-gen,
-- regipswd, regiweb, the rest of regitest), which are mostly input and output around libraries and devices;
-- modpoll, which is third-party code.
pub mod Base
pub mod Serial
pub mod Ymodem
pub mod Tftp
pub mod Sdp
pub mod Loader
pub mod UbootConf
pub mod Ftdi
pub mod Rfb
pub mod Splash
