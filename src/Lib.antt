-- ===== src/Lib.antt =====
-- Tinia: the exposed model of a job, the master process that starts and watches jobs, the render lists
-- that a job sends its clients, and the messages between processes.
--
-- A job keeps its parameters in an ExposedModel (src/model/ExposedModel.cpp and
-- include/tinia/model/ExposedModel.hpp). The job, and the clients through the job's controller, add
-- and update elements; whoever listens is told; a client polls with the last revision number that it
-- saw and is sent the elements that changed since. The master (src/trell_master/Master.cpp) keeps the
-- table of jobs: it starts them on a client's request, takes their heartbeats, looks whether their
-- processes are there, and kills and wipes them. A render list (src/renderlist and
-- include/tinia/renderlist) is a database of buffers, shaders and actions with a draw order; a client
-- follows it by revision numbers too. Jobs, the master and the web server talk through shared memory
-- (src/ipc): a client's query and the server's reply to it pass through one buffer, part by part.
--
-- Model/Types.antt: TypeToXSDType, and what the code takes from outside (Platform, CppType).
-- Model/ElementData.antt: impl::ElementData, one function for each member function that the model
-- uses (setStringValue is set_string_value, checkValue is check_value, and so on).
-- Model/Factory.antt: impl::ElementDataFactory and Viewer.
-- Model/Trees.antt: setPropertyTreeValue, over the property tree of a document.
-- Model/Annotations.antt: the loop of addAnnotation over texts in several languages.
-- Model/Layout.antt: the widgets of GUILayout.hpp.
-- Model/Listeners.antt: StateListenerHandler and StateSchemaListenerHandler.
-- Model/Exposed.antt and the files of Model/Exposed: ExposedModel. The record ExposedModel holds the
-- members; Add, Update and Query have the public functions, Layouts those on the layout with
-- src/model/validateGUI.cpp, Requests sequences of calls; the other files have the theorems. A
-- member function is a function of a state-and-error monad: like the source, it keeps the changes that
-- it made before it throws.
-- Master.antt and the files of Master: the state of Master and what it asks of the system; Dump has
-- encodeMasterState and dumpMasterState, Jobs the functions on one job, Children periodic and often,
-- Parse has parseXML, Handle has handle and getLoad, Snarf has snarfMasterState, Snarf/Document the form
-- of the file that it reads; Table, Calls, Watch,
-- Handle/Replies and Snarf/Recovery have the theorems.
-- RenderList.antt and the files of RenderList: the items and the DataBase of DataBase.cpp. Items has
-- the functions that create and delete, Setters those of the items' classes (a constructor of
-- ActionState for each class of actions), Process has process and Changes has changes; Operations has
-- runs of them. Stored, Raised, Names, Valid, Steps, Grown, Client, Drawable and Setters/Lookup have the
-- theorems. set_uniform is what the setters of SetUniforms have in common. A pointer to an item is the map and the id it has there; following a pointer to a deleted
-- item is none. The local map in_use of process is left out, since nothing reads it.
-- Ipc.antt and the files of Ipc: ipc_msg_client.c and ipc_msg_server.c. Each side runs while it holds the
-- operation lock, up to its next wait; a stretch is one step of a Session, and an Event says which wait
-- ends and how (ipc_msg_client_send is client_send, ipc_msg_server_recv is server_recv and
-- server_consume, and so on). Buffered has the client's buffered callbacks. Phases, Delivery, Steps,
-- Wakes and Progress have the theorems.
-- JobController.antt and the files of JobController: src/trell/IPCJobController.cpp, how a job answers a
-- message. Handle has handle, onUpdateState, onGetScripts and the functions that listen to the model, Snapshot the case
-- of a snapshot; Bounds has the theorems. The products of ints that would overflow are an outcome of
-- their own.
-- Prelude.antt and its files: shared names, tests on numbers, maps, integers and the order of texts.
-- Examples.antt and its files: a platform, a system and the theorems at concrete calls.
--
-- A std::map is a list in ascending order of its keys. The revision counter is an unsigned int: it
-- wraps at 2 ^ 32, and the theorems about revisions say how many numbers must be left. Each public
-- function of the model is one step, since it holds the model's recursive mutex from beginning to end.
-- A listener is a number, and a call of it is an entry of a list; it is taken not to call the model
-- back. Every recursion is structural, so that no fuel is needed; the loops of the IPC layer are runs over a
-- list of events.
--
-- boost::lexical_cast, boost::split, streams and the numeric types are parameters (Platform, CppType),
-- as is the int that ElementData's constructor leaves unset. What the system answers the master (fork,
-- kill, the replies of message boxes, the time) is a parameter too (Host), and what the master asks of
-- it is a list of actions; the order of an unordered_map means nothing in the theorems, and is that of
-- the keys here. The process that a fork starts runs exec_job at once; what it does when execvpe fails
-- is that process's own. The callbacks of a message (producers, consumers, handlers) are a record of
-- functions (Callbacks), as are the virtual functions of a job (JobCallbacks): a producer's part depends on its number, a consumer's answer on what it has had.
--
-- Not modelled: updateElement of a File, how
-- libxml reads a text (its nodes are the input of parse_xml and snarf_master_state), the lists of
-- applications and rendering devices (what they answer is in Host), the IPC layer's mapping of
-- shared memory and ipc_msg_server_notify (a client that waits for a notification may wake at any time),
-- the Apache module,
-- the rest of the controllers of jobs (src/jobcontroller and src/trell), the writers and the OpenGL side of render lists, and the Qt client.
pub mod Prelude
pub mod Model
pub mod Master
pub mod RenderList
pub mod Ipc
pub mod JobController
pub mod Examples
