-- ===== src/Lib.antt =====
-- Verification of ToxSuite, a library of C helpers for Tox services, with its bot `suit`.
--
-- The program and its parts. The bot's main loop (src/suit.c) polls toxcore, toxav, the call test,
-- the purge of old friends and the shared directory, each when its delay has passed. toxcore calls
-- back into the list of friends, which is ordered by friend number, and into the file transfers;
-- toxav calls back into the call test. The shared directory is walked and hashed in the
-- background, and a friend may ask for one of its files, or for the list of them, by a command of
-- src/callbacks.c; a file transfer then sends it. The call test hands its recording to a file
-- transfer as well. At the end of a run the unfinished transfers are saved, and the next run offers
-- them again when their friend comes online. The profile and the keys of the friends are files of
-- their own, which src/toxdatatool.c works on too.
--
-- The files, with the code they model:
--   Base       what the others share: Boolean tests and lists over native numbers, the signed and
--              unsigned integers of C (Int, Words), entries of intrusive lists (Entries), ordered
--              lists (Ordered), heap blocks (Heap), decimal output (Decimal), results (Results)
--   Tox, Toxav, Sodium
--              the calls of toxcore, of toxav with libsndfile, and of libsodium, as records of
--              operations over an unknown state; Tox/Recorder is a toxcore that logs its calls
--   Timespec   src/timespec.c and src/timespec.h: a record of two signed numbers and one function
--              for each of theirs, under the same name
--   Friend     src/friend.c and src/friend.h: struct friend_info is FriendInfo, the list head a list;
--              its callbacks take and return the list; what is printed of a friend is in Printing
--   Transfer   src/file.c, src/file.h and src/filesend.c: FilesSender is a list of FileSender, newest
--              first; each callback takes the queue, the heap and the state of toxcore
--   Call       src/call.c and src/call.h: struct call_tester is CallTester; the iteration of a tester
--              is calltest_iterate_one_shot in Call/OneShot, with one function for each step; the
--              module's start and end are in Call/Startup, the frames of video in Call/Video
--   Shared     src/fileop.c: the static variables are the record Shared, which file_do takes and
--              returns with its result and the node that its callback is called with. Pointers and
--              Hashes follow the blocks of the hashes, Progress and Scanning the calls of file_do up to
--              the last file that was found, Listed the paths that they leave in the list, and
--              Rescanning the calls after a signal
--   Suit       src/suit.c: the body of the polling loop of main is the function `round`, from the
--              delays, the clock and the timestamps to an action and the new timestamps. What main does
--              before the loop is in Startup, what it does behind it in Shutdown, and Restarting and
--              Resuming run the one after the other. Events has a step for each callback that
--              callbacks_init sets and for the purge, and Reached the states that they lead to
--   Bencode    src/bencode/bencode.h: the trees, the text that stands for one, and a record of the calls
--              that the program makes; Bencode/Plain is such a record, with a reader (Reader, Reading)
--   Tsfiles    src/tsfiles.c: a file node as a tree (Nodes), the room that a tree takes (Length), the list
--              of shared files (Shrlist), the transfers at the end of a run (Senders, Kept, Restored)
--              and their return when a friend comes online (Resume, Restart)
--   Profile    src/toxdata.c: the profile on disk, with a record of the encryption calls, and the files
--              of public keys (Keys, Removing); the main function of src/toxdatatool.c behind its options
--              is Profile/Tool, and Copying runs it twice
--   Conf       src/conf.c: the search for a key in a file of settings
--   Commands   src/callbacks.c: the words of a message, the pack that an argument names and the commands
--              (Execute), and the announcement of a new file to a groupchat (Announcing). src/command.c:
--              argexp is in Arguments; what friend_message writes for each option is in Replies, its
--              loop and its actions in Dialogue, and Buffered, Answers and Xdcc follow it
--   Misc       src/misc.c: names of files, sizes and times, a text sent in messages (Stream) and the data
--              of the client itself (Client)
--
-- How C is read. A pointer to an entry is its position in the list, `none` is NULL. Where several
-- structs point to one block, as they do to the hash of a file, the block lies in a heap and the
-- pointer is its address; blocks with one owner leave no trace. A function that dereferences NULL,
-- frees a block twice, divides by zero, runs into a missing element, lets toxav read beyond a
-- buffer or overflows an int returns `none`. Numbers are
-- natural numbers with the wrap of their width written out where the code computes modulo; signed
-- ones are integers with their two parts, taken to stay within their width. File contents are
-- lists of bytes, and an open file keeps the contents that it had at fopen. Uninitialised memory
-- is an argument of the functions that read it.
--
-- Bounds and fuel. Loops over lists are structural. The loops over numbers run on fuel: the
-- division of Timespec takes more than the dividend, the decimal output more than the number, and
-- the scaling of Misc/Sizes six rounds, as five divisions by 1024 bring 63 bits below 10000. The
-- playing of a recording and the hashing of a file are run in Call/Playback and Shared/Hashing by
-- as many calls as a fuel says.
--
-- What is not modelled. Memory is at hand for every malloc, but for the name of a call tester's
-- file, whose failure the code tests apart. Logging has no effect, and what is printed is a text only
-- where it goes to a friend or is an operation of its own. src/list.h and src/time64.h are copies of
-- headers of the Linux kernel and src/bencode is another project's library, whose calls are a
-- parameter, as are those of toxcore, toxav, libsodium, libsndfile, getopt_long and the streams of
-- stdio. Of the main program, the redirection of the output is left out, and the signal handler is the
-- end of the loop. send_capcha is not built. video_receive_frame and on_new_file are modelled
-- as they stand, though the program sets neither as a callback. src/timesp.c is not built.
pub mod Base
pub mod Sodium
pub mod Tox
pub mod Toxav
pub mod Timespec
pub mod Friend
pub mod Misc
pub mod Transfer
pub mod Call
pub mod Shared
pub mod Suit
pub mod Bencode
pub mod Tsfiles
pub mod Profile
pub mod Commands
pub mod Conf
